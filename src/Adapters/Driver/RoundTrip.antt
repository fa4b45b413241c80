-- ===== src/Adapters/Driver/RoundTrip.antt =====
-- The executors' arguments, conformance/adapters/common/src/peer_command.rs, read by the driver.
use wasi_webrtc_datachannels.Base.{◌^◌, ◌<◌, ◌≡◌, refl, true, nat_eq, string_eq}
use wasi_webrtc_datachannels.Base.Decimal.{parse_usize-decimal}
use wasi_webrtc_datachannels.Adapters.PeerCommand.{
  PeerRole, offerer, answerer, role_as_str, PeerRun, shared_peer_args,
}
use wasi_webrtc_datachannels.Adapters.Driver.{
  Role, TestConfig, ok, parse_args, flag_of, parse_flags, take_value,
}

abbrev role_of : PeerRole → Role
role_of offerer = Role.offerer
role_of answerer = Role.answerer

abbrev pub asked : PeerRun → PeerRole → TestConfig
asked run role = record {
  role = role_of role;
  signaling_server = run.signaling_url;
  room = run.room;
  message_count = run.count;
  message_size = run.size;
  trickle = true;
}

-- The arguments that follow the component in the command of a wasip3-guest peer read back as the
-- test, the role, the mailbox and the parameters that the executor asked for, with the candidates
-- trickled: where the role is written as one of the two roles, and the counts fit 32 bits.
pub parse_args-shared :
    (run : PeerRun) (role : PeerRole)
    → run.role ≡ role_as_str role
    → run.count < 2 ^ 32
    → run.size < 2 ^ 32
    → parse_args (shared_peer_args run) ≡ ok (run.test_id, asked run role)
unfolding parse_args shared_peer_args flag_of role_as_str parse_flags take_value
parse_args-shared run offerer e c s =
    rw (e, parse_usize-decimal 32 run.count c, parse_usize-decimal 32 run.size s) refl
parse_args-shared run answerer e c s =
    rw (e, parse_usize-decimal 32 run.count c, parse_usize-decimal 32 run.size s) refl
