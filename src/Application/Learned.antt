-- ===== src/Application/Learned.antt =====
-- The selector that learning builds from a process, `ApplicationIdentity::learned_selector` of
-- crates/openshield-core/src/application.rs, and the processes that it matches.
use open_shield.Base.{
  ℕ, ◌≡◌, ◌↔◌, refl, true, false, Option, none, some, List, [], ◌∷◌, any, same, same_iff, arith,
}
use open_shield.Base.Outcome.{Result, ok, err, ◌>>=◌}
use open_shield.Application.Failure.{ApplicationValidationError}
use open_shield.Application.ApplicationPath.{ApplicationPath, ApplicationPath-discrete}
use open_shield.Application.CgroupPath.{CgroupPath, CgroupPath-discrete}
use open_shield.Application.CommandArgument.{CommandArgument}
use open_shield.Application.CommandLine
use open_shield.Application.CommandLine.{CommandLineSelector, exact, arguments-discrete}
use open_shield.Application.FileId.{ExecutableFileId, ExecutableFileId-discrete}
use open_shield.Application.Selector
use open_shield.Application.Selector.{ApplicationSelector, ApplicationIdentity, matches}
use open_shield.Application.Identity.{validate, single_cgroup, learned_selector}

-- `other` runs what `identity` ran: the same file behind the same path with the same arguments, for
-- the same user, and in the cgroup of `identity`, where that has one.
pub record RunsSame (identity other : ApplicationIdentity) : Type 0 where
  pub executable : other.executable ≡ identity.executable
  pub executable_file : other.executable_file ≡ identity.executable_file
  pub command_line : other.command_line ≡ identity.command_line
  pub uid : other.uid ≡ identity.uid
  pub cgroup :
      (group : CgroupPath)
      → identity.cgroups ≡ group ∷ []
      → any (λ actual. same CgroupPath-discrete actual group) other.cgroups ≡ true

-- What a learned selector holds.
pub record IsLearned (identity : ApplicationIdentity) (selector : ApplicationSelector)
    : Type 0 where
  pub group : Option CgroupPath
  pub single : single_cgroup identity.cgroups ≡ ok group
  pub shape : selector ≡ record {
    executable = some identity.executable;
    executable_file = some identity.executable_file;
    command_line = some (record { kind = exact; arguments = identity.command_line });
    uid = some identity.uid;
    cgroup = group;
    metadata_redacted = false;
  }

made :
    (arguments : List CommandArgument) (command_line : CommandLineSelector)
    → CommandLine.new exact arguments ≡ ok command_line
    → command_line ≡ record { kind = exact; arguments = arguments }
unfolding CommandLine.new
made arguments command_line h = ground arith

built :
    (executable : ApplicationPath) (file : ExecutableFileId) (command_line : CommandLineSelector)
    (uid : ℕ) (group : Option CgroupPath) (selector : ApplicationSelector)
    → Selector.new (some executable) (some file) (some command_line) (some uid) group ≡ ok selector
    → selector ≡ record {
      executable = some executable;
      executable_file = some file;
      command_line = some command_line;
      uid = some uid;
      cgroup = group;
      metadata_redacted = false;
    }
unfolding Selector.new
built executable file command_line uid group selector h = ground arith

-- The chain of `learned_selector`, for the results of its parts.
parts :
    (identity : ApplicationIdentity) (selector : ApplicationSelector)
    (valid : Result ApplicationValidationError Unit)
    (made : Result ApplicationValidationError CommandLineSelector)
    (single : Result ApplicationValidationError (Option CgroupPath))
    → (valid >>= λ _. made >>= λ command_line. single >>= λ group.
        Selector.new
          (some identity.executable)
          (some identity.executable_file)
          (some command_line)
          (some identity.uid)
          group)
      ≡ ok selector
    → (command_line : CommandLineSelector) × (group : Option CgroupPath) × (made ≡ ok command_line)
      × (single ≡ ok group)
      × (Selector.new
            (some identity.executable)
            (some identity.executable_file)
            (some command_line)
            (some identity.uid)
            group
          ≡ ok selector)
parts identity selector (err e) made single h = cc
parts identity selector (ok _) (err e) single h = cc
parts identity selector (ok _) (ok command_line) (err e) h = cc
parts identity selector (ok _) (ok command_line) (ok group) h = (command_line, group, refl, refl, h)

learned_selector-IsLearned :
    (identity : ApplicationIdentity) (selector : ApplicationSelector)
    → learned_selector identity ≡ ok selector
    → IsLearned identity selector
unfolding learned_selector
learned_selector-IsLearned identity selector h =
    let (command_line, group, c, g, s) =
      parts identity selector (validate identity) (CommandLine.new exact identity.command_line)
        (single_cgroup identity.cgroups) h in
    record {
      group = group;
      single = g;
      shape = rw (← made identity.command_line command_line c) (
          built identity.executable identity.executable_file command_line identity.uid group
            selector s);
    }

single_cgroup_iff :
    (cgroups : List CgroupPath) (group : CgroupPath)
    → (single_cgroup cgroups ≡ ok (some group)) ↔ (cgroups ≡ group ∷ [])
single_cgroup_iff [] group = (λ h. cc, λ h. cc)
single_cgroup_iff (one ∷ []) group = (λ h. cc, λ h. cc)
single_cgroup_iff (one ∷ other ∷ rest) group = (λ h. cc, λ h. cc)

-- A selector of this shape matches who runs the same.
shape_matches :
    (identity other : ApplicationIdentity) (group : Option CgroupPath)
    → single_cgroup identity.cgroups ≡ ok group
    → (matches
          (record {
            executable = some identity.executable;
            executable_file = some identity.executable_file;
            command_line = some (record { kind = exact; arguments = identity.command_line });
            uid = some identity.uid;
            cgroup = group;
            metadata_redacted = false;
          })
          other
        ≡ true)
      ↔ RunsSame identity other
unfolding matches CommandLine.matches
shape_matches identity other none single = (
  λ m. record {
    executable =
        ground (arith, m, same_iff ApplicationPath-discrete identity.executable other.executable);
    executable_file = ground (
      arith,
      m,
      same_iff ExecutableFileId-discrete identity.executable_file other.executable_file,
    );
    command_line =
        ground (arith, m, same_iff arguments-discrete identity.command_line other.command_line);
    uid = ground (arith, m);
    cgroup = λ group e. let s = (single_cgroup_iff identity.cgroups group).1 e in cc;
  },
  λ r. ground (
    arith,
    r.executable,
    r.executable_file,
    r.command_line,
    r.uid,
    same_iff ApplicationPath-discrete identity.executable other.executable,
    same_iff ExecutableFileId-discrete identity.executable_file other.executable_file,
    same_iff arguments-discrete identity.command_line other.command_line,
  ),
)
shape_matches identity other (some g) single = (
  λ m. record {
    executable =
        ground (arith, m, same_iff ApplicationPath-discrete identity.executable other.executable);
    executable_file = ground (
      arith,
      m,
      same_iff ExecutableFileId-discrete identity.executable_file other.executable_file,
    );
    command_line =
        ground (arith, m, same_iff arguments-discrete identity.command_line other.command_line);
    uid = ground (arith, m);
    cgroup = λ group e.
        let s = (single_cgroup_iff identity.cgroups group).1 e in
        let own : g ≡ group = cc in rw (← own) (ground (arith, m));
  },
  λ r. ground (
    arith,
    r.executable,
    r.executable_file,
    r.command_line,
    r.uid,
    r.cgroup g ((single_cgroup_iff identity.cgroups g).0 single),
    same_iff ApplicationPath-discrete identity.executable other.executable,
    same_iff ExecutableFileId-discrete identity.executable_file other.executable_file,
    same_iff arguments-discrete identity.command_line other.command_line,
  ),
)

-- A selector that learning builds from a process matches exactly the processes that run the same
-- file behind the same path with the same arguments for the same user, in the cgroup of the first
-- process, where that has one.
pub learned_selector-RunsSame :
    (identity other : ApplicationIdentity) (selector : ApplicationSelector)
    → learned_selector identity ≡ ok selector
    → (matches selector other ≡ true) ↔ RunsSame identity other
learned_selector-RunsSame identity other selector h =
    let l = learned_selector-IsLearned identity selector h in
    rw l.shape (shape_matches identity other l.group l.single)
