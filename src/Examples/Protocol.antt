-- ===== src/Examples/Protocol.antt =====
-- Messages of crates/openshield-protocol/src/lib.rs.
use open_shield.Base.{◌≡◌, true}
use open_shield.Base.Text.{codes}
use open_shield.Protocol.Errors.{conflict, protocol_error, accepts_message}
use open_shield.Protocol.Errors.Sanitizing.{IsPresentable, protocol_error-accepted}

protocol_error-accepted_example :
    IsPresentable (protocol_error conflict (codes "retry\u{7}")).message
    × (accepts_message (protocol_error conflict (codes "retry\u{7}")).message ≡ true)
protocol_error-accepted_example = protocol_error-accepted conflict (codes "retry\u{7}")
