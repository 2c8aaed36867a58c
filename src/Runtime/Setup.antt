-- ===== src/Runtime/Setup.antt =====
-- lib/runtime/setup_state.h and setup_state.cpp: who may set the first password.
use homekit_rf_ir_blaster.Base.{
  ℕ, ◌<◌, ◌≡◌, ◌≢◌, ◌⊎◌, ◌↔◌, inl, inr, refl, Bool, true, false, ◌&&◌, not, ltb, if◌then◌else◌,
  null, Bytes, [], ◌∷◌, arith,
}
use homekit_rf_ir_blaster.Runtime.Crypto.{constant_time_equal, constant_time_equal_iff}
use homekit_rf_ir_blaster.Runtime.Encoding.{encode}

pub data SetupMode : Type 0 where
  awaiting_setup configured : SetupMode

unfoldable pub current_mode : Bool → SetupMode
current_mode true = configured
current_mode false = awaiting_setup

unfoldable pub setup_allowed : Bool → Bytes → Bytes → ℕ → ℕ → Bool
setup_allowed credential_present provided stored window_until now =
    if credential_present
    then false
    else if not (null stored) && constant_time_equal provided stored
    then true
    else ltb now window_until

unfoldable pub make_nonce : Bytes → Bytes
make_nonce rand = encode rand

-- Setup is allowed exactly while no credential exists, to whoever gives the stored nonce, which is
-- not empty, or within the button window.
pub setup_allowed_iff :
    (credential : Bool) (provided stored : Bytes) (window_until now : ℕ)
    → (setup_allowed credential provided stored window_until now ≡ true)
      ↔ ((credential ≡ false) × (((stored ≢ []) × (provided ≡ stored)) ⊎ (now < window_until)))
unfolding setup_allowed
setup_allowed_iff true provided stored window_until now = (λ h. cc, λ h. cc)
setup_allowed_iff false provided [] window_until now = (
  λ h. (refl, inr (ground arith)),
  λ h. elim h.1 [ inl e ↦ absurd (e.0 refl) | inr lt ↦ ground arith ],
)
setup_allowed_iff false provided (s ∷ ss) window_until now = (
  λ h. (refl, ground (arith, constant_time_equal_iff provided (s ∷ ss))),
  λ h. ground (arith, constant_time_equal_iff provided (s ∷ ss)),
)
