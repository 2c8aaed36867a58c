-- ===== src/Config/Changes.antt =====
-- lib/config/settings_change.h: which settings take effect without a restart.
use homekit_rf_ir_blaster.Base.{
  ◌≡◌, ◌↔◌, Bool, true, false, ◌||◌, not, ◌==◌, bytes_eq, bytes_eq_iff, arith,
}
use homekit_rf_ir_blaster.Config.Model.{Settings}

pub data ApplyKind : Type 0 where
  live requires_restart : ApplyKind

abbrev pub same_flag : Bool → Bool → Bool
same_flag true b = b
same_flag false b = not b

-- What a restart is needed for, in the order of the source.
abbrev pub differs : Settings → Settings → Bool
differs old new =
    not (same_flag old.https new.https)
    || (not (old.listen_port == new.listen_port)
        || (not (same_flag old.trusted_proxy new.trusted_proxy)
            || not (bytes_eq old.canonical_domain new.canonical_domain)))

abbrev restart_if : Bool → ApplyKind
restart_if true = requires_restart
restart_if false = live

unfoldable pub classify_change : Settings → Settings → ApplyKind
classify_change old new = restart_if (differs old new)

-- A change is applied live exactly if at most the LED setting differs.
pub classify_change_iff :
    (old new : Settings)
    → (classify_change old new ≡ live) ↔ (new ≡ record old { led_enabled = new.led_enabled })
unfolding classify_change
classify_change_iff old new = (
  λ h. ground (arith, bytes_eq_iff old.canonical_domain new.canonical_domain),
  λ e. ground (arith, bytes_eq_iff old.canonical_domain new.canonical_domain),
)
