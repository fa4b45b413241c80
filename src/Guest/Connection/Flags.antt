-- ===== src/Guest/Connection/Flags.antt =====
-- The fields of a peer-connection of wasip3-impl/src/provider.rs that say what it has done.
use wasi_webrtc_datachannels.Base.{
  ℕ, ◌≡◌, refl, suc, Bool, true, false, not, ◌||◌, ◌&&◌, none, String, List, [], ◌∷◌, ◌++◌,
  if◌then◌else◌,
}
use wasi_webrtc_datachannels.Guest.Connection.{IceCandidate}

-- What the once-only behaviour rests on.
pub record Flags : Type 0 where
  pub candidate : String
  pub taken : Bool
  pub started : Bool
  pub runtime : Bool
  pub pumps : ℕ

abbrev pub ensure : Flags → Flags
ensure f =
    if f.started
    then f
    else if f.runtime
    then record f { runtime = false; started = true; pumps = suc f.pumps }
    else f

-- A connection with a socket, and one without.
abbrev pub live : String → Bool → Bool → Flags
live c taken started = record {
  candidate = c;
  taken = taken;
  started = started;
  runtime = not started;
  pumps = if started then 1 else 0;
}

abbrev pub dead : Flags
dead = record { candidate = ""; taken = true; started = true; runtime = false; pumps = 0 }

abbrev pub candidate_of : String → IceCandidate
candidate_of c = record { candidate = c; sdp_mid = none; sdp_mline_index = none }

abbrev pub yields : Bool → Flags → List IceCandidate
yields true f = if f.taken then [] else candidate_of f.candidate ∷ []
yields false f = []

abbrev pub next_flags : Bool → Bool → Flags → Flags
next_flags starts takes f =
    let g = if starts then ensure f else f in if takes then record g { taken = true } else g

pub next-live :
    (starts takes : Bool) (c : String) (t b : Bool)
    → next_flags starts takes (live c t b) ≡ live c (t || takes) (b || starts)
next-live true true c true true = refl
next-live true true c true false = refl
next-live true true c false true = refl
next-live true true c false false = refl
next-live true false c true true = refl
next-live true false c true false = refl
next-live true false c false true = refl
next-live true false c false false = refl
next-live false true c true true = refl
next-live false true c true false = refl
next-live false true c false true = refl
next-live false true c false false = refl
next-live false false c true true = refl
next-live false false c true false = refl
next-live false false c false true = refl
next-live false false c false false = refl

pub next-dead : (starts takes : Bool) → next_flags starts takes dead ≡ dead
next-dead true true = refl
next-dead true false = refl
next-dead false true = refl
next-dead false false = refl

pub or_assoc : (x y z : Bool) → ((x || y) || z) ≡ (x || (y || z))
or_assoc true y z = refl
or_assoc false y z = refl

pub yields-append :
    (takes later t b : Bool) (c : String)
    → yields takes (live c t b) ++ (if not (t || takes) && later then candidate_of c ∷ [] else [])
      ≡ (if not t && (takes || later) then candidate_of c ∷ [] else [])
yields-append true true true b c = refl
yields-append true true false b c = refl
yields-append true false true b c = refl
yields-append true false false b c = refl
yields-append false true true b c = refl
yields-append false true false b c = refl
yields-append false false true b c = refl
yields-append false false false b c = refl

pub yields-dead : (takes : Bool) → yields takes dead ≡ []
yields-dead true = refl
yields-dead false = refl
