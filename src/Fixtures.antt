-- ===== src/Fixtures.antt =====
-- Concrete values on which the theorems are applied and the code is run.
use open_shield.Base.{◌+◌, true, false, none, some, [], ◌∷◌}
use open_shield.Base.Words.{pos}
use open_shield.Base.Outcome.{ok}
use open_shield.Base.Text.{codes}
use open_shield.Application.ApplicationPath.{ApplicationPath}
use open_shield.Application.FileId.{ExecutableFileId}
use open_shield.Application.Selector.{ApplicationSelector, ApplicationIdentity}
use open_shield.Model.Kinds.{learning, strict, outbound, tcp, manual, accept, drop}
use open_shield.Model.InterfaceName.{InterfaceName}
use open_shield.Model.PortRange.{PortRange}
use open_shield.Model.Address.{IpAddr, IpNet}
use open_shield.Model.RuleSpec.{RuleSpec}
use open_shield.Model.Rule.{Rule}
use open_shield.Model.LearnedEndpoint.{LearnedEndpoint, LearnedApplicationEndpoint}
use open_shield.State.Data.{State, max_flow_generation}
use open_shield.State.External.{External, Draws}

abbrev pub curl_path : ApplicationPath
curl_path = record { text = codes "/usr/bin/curl" }

abbrev pub curl_file : ExecutableFileId
curl_file = record {
  device = 1;
  inode = 42;
  size = 1000;
  ctime_seconds = pos 5;
  ctime_nanoseconds = pos 7;
}

abbrev pub curl_selector : ApplicationSelector
curl_selector = record {
  executable = some curl_path;
  executable_file = some curl_file;
  command_line = none;
  uid = some 1000;
  cgroup = none;
  metadata_redacted = false;
}

abbrev pub curl_identity : ApplicationIdentity
curl_identity = record {
  pid = 77;
  process_start_time_ticks = 3;
  executable = curl_path;
  executable_file = curl_file;
  command_line = record { text = codes "curl" } ∷ record { text = codes "-s" } ∷ [];
  uid = 1000;
  cgroups = [];
}

abbrev pub https : PortRange
https = record { start = 443; end = 443 }

abbrev pub eth0 : InterfaceName
eth0 = record { text = codes "eth0" }

-- An enabled rule that lets `curl` reach one host.
abbrev pub curl_spec : RuleSpec
curl_spec = record {
  name = record { text = codes "curl" };
  direction = outbound;
  action = accept;
  protocol = tcp;
  peer_network = some (IpNet.v4 9);
  port = some https;
  interface = some eth0;
  application = some curl_selector;
  origin = manual;
  enabled = true;
}

abbrev pub drop_spec : RuleSpec
drop_spec = record curl_spec { action = drop; application = none }

abbrev pub curl_rule : Rule
curl_rule = record { id = 5; spec = curl_spec; created_at = 10; updated_at = 10 }

abbrev pub one_rule : State
one_rule = record {
  revision = 3;
  flow_generation = 8;
  mode = learning;
  enforcement_strategy = strict;
  rules = (5, curl_rule) ∷ [];
}

-- No flow generation is left.
abbrev pub exhausted : State
exhausted = record one_rule { flow_generation = max_flow_generation }

-- Writes of 40 and 60 bytes for every policy; an address is displayed as one letter.
abbrev pub small_files : External
small_files = record {
  state_json = λ s. record { sizes = 40 ∷ 60 ∷ []; failure = none };
  rule_json = λ rule. ok 50;
  uuid_text_len = λ id. 36;
  ip_net_from = λ address. elim address [ IpAddr.v4 a ↦ IpNet.v4 a | IpAddr.v6 a ↦ IpNet.v6 a ];
  display_address = λ address. codes "h";
}

abbrev pub from_hundred : Draws
from_hundred k = (100 + k, 20 + k)

abbrev pub endpoint : LearnedEndpoint
endpoint = record {
  address = IpAddr.v4 9;
  protocol = tcp;
  port = some https;
  interface = some eth0;
}

abbrev pub observed : LearnedApplicationEndpoint
observed = record { endpoint = endpoint; application = curl_selector }
