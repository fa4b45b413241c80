-- ===== src/Contract.antt =====
-- What `receive` and `receive-via-stream` promise of a channel, wit/webrtc.wit, as one machine that
-- the two implementations refine: the messages that wait, whether a stream has claimed them, and the
-- error that ends the channel once they are gone. Between the calls of one client nothing arrives.
pub mod OnGuest
pub mod OnHost
pub mod Once
mod Tests
use wasi_webrtc_datachannels.Base.{
  ℕ, ◌≡◌, refl, ap, sym, ◌∙◌, Bool, true, false, Option, none, some, List, [], ◌∷◌, if◌then◌else◌,
}
use wasi_webrtc_datachannels.Guest.Provider.{
  Error, receiving_via_stream, Message, Result, ok, err, Attempt, ready, wait,
}

-- The two calls of an implementation whose states are `S`.
pub record ReceiveApi (S : Type 0) : Type 0 where
  pub receive : S → Attempt Message × S
  pub claim : S → Result (Unit {0}) × S

pub record Inbox : Type 0 where
  pub backlog : List (Result Message)
  pub claimed : Bool
  pub ending : Option Error

abbrev next_of : Inbox → List (Result Message) → Attempt Message × Inbox
next_of b (r ∷ rs) = (ready r, record b { backlog = rs })
next_of b [] = elim b.ending [ none ↦ (wait, b) | some e ↦ (ready (err e), b) ]

abbrev free_claim : Bool → Inbox → Option Error → Result (Unit {0}) × Inbox
free_claim late b none = (ok tt, record b { claimed = true })
free_claim late b (some e) =
    if late then (ok tt, record b { claimed = true }) else (err Error.closed, b)

-- `late` tells whether a channel that has ended can still be claimed.
unfoldable pub contract : Bool → ReceiveApi Inbox
contract late = record {
  receive = λ b. if b.claimed then (ready (err receiving_via_stream), b) else next_of b b.backlog;
  claim = λ b. if b.claimed then (err receiving_via_stream, b) else free_claim late b b.ending;
}

pub data Call : Type 0 where
  receive : Call
  claim : Call

pub data Seen : Type 0 where
  received : Attempt Message → Seen
  claimed : Result (Unit {0}) → Seen

module _ {S : Type 0} (api : ReceiveApi S) where
  abbrev pub call : Call → S → Seen × S
  call receive s = let (r, t) = api.receive s in (received r, t)
  call claim s = let (r, t) = api.claim s in (claimed r, t)

  -- What a client sees that makes these calls one after the other.
  unfoldable pub trace : List Call → S → List Seen
  trace [] s = []
  trace (c ∷ cs) s = let (r, t) = call c s in r ∷ trace cs t

-- An implementation follows the contract through a view of its states, from the valid ones.
pub record IsRefinement {S : Type 0} (api : ReceiveApi S) (late : Bool) (view : S → Inbox)
    (IsGood : S → Type 0) : Type 0 where
  pub receive_good : (s : S) → IsGood s → IsGood (api.receive s).1
  pub claim_good : (s : S) → IsGood s → IsGood (api.claim s).1
  pub receive_view :
      (s : S)
      → IsGood s
      → ((api.receive s).0, view (api.receive s).1) ≡ (contract late).receive (view s)
  pub claim_view :
      (s : S) → IsGood s → ((api.claim s).0, view (api.claim s).1) ≡ (contract late).claim (view s)

module _ {S : Type 0} (api : ReceiveApi S) (late : Bool) (view : S → Inbox) (IsGood : S → Type 0)
    (r : IsRefinement api late view IsGood) where
  pub trace-refines :
      (cs : List Call) (s : S) → IsGood s → trace api cs s ≡ trace (contract late) cs (view s)
  unfolding trace
  trace-refines [] s g = refl
  trace-refines (receive ∷ cs) s g = rw (trace-refines cs (api.receive s).1 (r.receive_good s g)) (
      ap (λ (x : Attempt Message × Inbox). received x.0 ∷ trace (contract late) cs x.1)
        (r.receive_view s g))
  trace-refines (claim ∷ cs) s g = rw (trace-refines cs (api.claim s).1 (r.claim_good s g)) (
      ap (λ (x : Result (Unit {0}) × Inbox). claimed x.0 ∷ trace (contract late) cs x.1)
        (r.claim_view s g))
