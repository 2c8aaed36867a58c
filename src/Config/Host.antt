-- ===== src/Config/Host.antt =====
-- lib/config/config_validate.cpp, isValidHostname and isValidHostOrIp. The label that the source
-- delimits by two indices is carried as the list of its bytes.
use homekit_rf_ir_blaster.Base.{
  ℕ, ◌≡◌, refl, Bool, true, false, ◌&&◌, ◌||◌, not, [], ◌∷◌, ◌++◌, ltb, leb, ◌==◌, if◌then◌else◌,
  length, null, all, Bytes, codes,
}
use homekit_rf_ir_blaster.Config.Model.{max_label_len}
use homekit_rf_ir_blaster.Config.Ip.{is_ipv4}

unfoldable pub host_char : ℕ → Bool
host_char c =
    leb b'A' c && leb c b'Z' || leb b'a' c && leb c b'z' || leb b'0' c && leb c b'9' || c == b'-'

abbrev pub first_is : ℕ → Bytes → Bool
first_is c [] = false
first_is c (x ∷ xs) = x == c

abbrev pub last_is : ℕ → Bytes → Bool
last_is c [] = false
last_is c (x ∷ []) = x == c
last_is c (x ∷ y ∷ ys) = last_is c (y ∷ ys)

unfoldable pub label_ok : Bytes → Bool
unfolding host_char
label_ok l =
    if null l || ltb max_label_len (length l)
    then false
    else if first_is b'-' l || last_is b'-' l
    then false
    else all host_char l

unfoldable pub labels_ok : Bytes → Bytes → Bool
unfolding label_ok
labels_ok label [] = label_ok label
labels_ok label (c ∷ cs) =
    let rest = labels_ok [] cs in
    let more = labels_ok (label ++ (c ∷ [])) cs in
    if c == b'.' then label_ok label && rest else more

-- Without one trailing dot.
unfoldable pub pop_dot : Bytes → Bytes
pop_dot [] = []
pop_dot (c ∷ []) = if c == b'.' then [] else c ∷ []
pop_dot (c ∷ d ∷ cs) = c ∷ pop_dot (d ∷ cs)

unfoldable pub is_valid_hostname : Bytes → Bool
unfolding pop_dot labels_ok
is_valid_hostname s = let h = pop_dot s in if null h then false else labels_ok [] h

unfoldable pub forbidden_char : ℕ → Bool
forbidden_char c =
    c == b'/'
    || c == b'?'
    || c == b'#'
    || c == b':'
    || c == 32
    || c == 9
    || c == 10
    || c == 13
    || c == 12
    || c == 11

unfoldable pub is_valid_host_or_ip : Bytes → Bool
unfolding forbidden_char is_valid_hostname is_ipv4
is_valid_host_or_ip s =
    if null s
    then false
    else if not (all (λ c. not (forbidden_char c)) s)
    then false
    else is_ipv4 s || is_valid_hostname s

plain_host : is_valid_host_or_ip (codes "blaster.local.") ≡ true
unfolding is_valid_host_or_ip
plain_host = refl

host_with_port : is_valid_host_or_ip (codes "blaster.local:80") ≡ false
unfolding is_valid_host_or_ip
host_with_port = refl

dashed_label : is_valid_host_or_ip (codes "a-.local") ≡ false
unfolding is_valid_host_or_ip
dashed_label = refl
