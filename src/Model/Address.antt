-- ===== src/Model/Address.antt =====
-- Addresses of the standard library and networks of the crate `ipnet`, as far as the source looks
-- into them: the family, and equality. The number stands for the rest of the value.
use open_shield.Base.{ℕ, Bool, true, false, Option, some, ℕ_discrete}

pub data IpAddr : Type 0 where
  v4 : ℕ → IpAddr
  v6 : ℕ → IpAddr

pub data IpNet : Type 0 where
  v4 : ℕ → IpNet
  v6 : ℕ → IpNet

unfoldable pub IpAddr-discrete : Discrete IpAddr
IpAddr-discrete = hlevel ℕ_discrete

unfoldable pub IpNet-discrete : Discrete IpNet
IpNet-discrete = hlevel ℕ_discrete

abbrev pub is_ipv4 : IpAddr → Bool
is_ipv4 (IpAddr.v4 _) = true
is_ipv4 (IpAddr.v6 _) = false

abbrev pub is_ipv6 : IpAddr → Bool
is_ipv6 (IpAddr.v4 _) = false
is_ipv6 (IpAddr.v6 _) = true

-- `matches!(network, Some(IpNet::V4(_)))`, and the same for V6.
abbrev pub is_v4_net : Option IpNet → Bool
is_v4_net (some (IpNet.v4 _)) = true
is_v4_net _ = false

abbrev pub is_v6_net : Option IpNet → Bool
is_v6_net (some (IpNet.v6 _)) = true
is_v6_net _ = false
