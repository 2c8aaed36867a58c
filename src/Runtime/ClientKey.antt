-- ===== src/Runtime/ClientKey.antt =====
-- lib/runtime/client_key.cpp: which client a login attempt is counted against.
use homekit_rf_ir_blaster.Base.{
  ℕ, ◌≡◌, refl, Bool, true, not, Option, none, some, if◌then◌else◌, null, Bytes, codes,
}
use homekit_rf_ir_blaster.Config.Ip.{parse_ipv4}
use homekit_rf_ir_blaster.Runtime.Fields.{cut}
use homekit_rf_ir_blaster.Runtime.Policy.{before, trim}

unfoldable pub first_hop : Bytes → Bytes
unfolding before trim
first_hop s = trim (before b',' s)

abbrev or_peer : ℕ → Option ℕ → ℕ
or_peer peer none = peer
or_peer peer (some ip) = ip

unfoldable pub derive_client_key : ℕ → Bool → Bytes → Bytes → ℕ
unfolding first_hop
derive_client_key peer trusted_proxy x_real_ip x_forwarded_for =
    if trusted_proxy
    then or_peer peer (
        parse_ipv4
          (if not (null x_real_ip) then first_hop x_real_ip else first_hop x_forwarded_for))
    else peer

proxied_client : derive_client_key 5 true (codes "") (codes " 10.0.0.7 , 10.0.0.1") ≡ 167772167
unfolding derive_client_key parse_ipv4 cut
proxied_client = refl
