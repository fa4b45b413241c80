-- ===== src/Adapters/Interop/Folding.antt =====
-- What the folded outcome of an interop pair tells.
use wasi_webrtc_datachannels.Base.{◌≡◌, refl, ◌∙◌, Bool, true, false, ◌||◌}
use wasi_webrtc_datachannels.Adapters.Driver.{Role, offerer, answerer, both}
use wasi_webrtc_datachannels.Adapters.Outcome.{TestOutcome}
use wasi_webrtc_datachannels.Adapters.Outcome.Folding.{is_fail, fold_two-is_fail}
use wasi_webrtc_datachannels.Adapters.Interop.{fold_pair}

or_comm : (a b : Bool) → (a || b) ≡ (b || a)
or_comm true true = refl
or_comm true false = refl
or_comm false true = refl
or_comm false false = refl

-- Whichever role the Wasmtime peer plays, a pair fails exactly if one of its peers does.
fold_pair-is_fail :
    (role : Role) (wasmtime peer : TestOutcome)
    → is_fail (fold_pair role wasmtime peer) ≡ (is_fail wasmtime || is_fail peer)
unfolding fold_pair
fold_pair-is_fail offerer w p = fold_two-is_fail w p
fold_pair-is_fail both w p = fold_two-is_fail w p
fold_pair-is_fail answerer w p = fold_two-is_fail p w ∙ or_comm (is_fail p) (is_fail w)
