-- ===== src/Config/Hosts.antt =====
-- Which host:port addresses internal/config/config.go accepts.
use airpc.Prelude.{
  ℕ, ◌≡◌, ◌↔◌, ◌≤◌, refl, inl, inr, true, false, ◌&&◌, ◌||◌, not, [], ◌∷◌, ◌++◌, none, some, Text,
  text, is_empty, has_prefix, elem, all, is_digit, decimal, parse_uint, split_last, split_host_port,
  ltb, ok, if◌then◌else◌, arith, Bool-cases,
}
use airpc.Config.Addresses.{validate_host_port}

elem-digits : (c : ℕ) (s : Text) → is_digit c ≡ false → all is_digit s ≡ true → elem c s ≡ false
unfolding elem is_digit
elem-digits c [] h k = refl
elem-digits c (d ∷ s) h k = ground (arith, elem-digits c s h)

elem-append : (c : ℕ) (s t : Text) → elem c (s ++ t) ≡ (elem c s || elem c t)
unfolding elem
elem-append c [] t = refl
elem-append c (d ∷ s) t = ground (arith, elem-append c s t)

split_last-none : (c : ℕ) (s : Text) → elem c s ≡ false → split_last c s ≡ none
unfolding split_last elem
split_last-none c [] h = refl
split_last-none c (d ∷ s) h = ground (arith, split_last-none c s)

split_last-append :
    (c : ℕ) (before after : Text)
    → elem c after ≡ false
    → split_last c (before ++ c ∷ after) ≡ some (before, after)
unfolding split_last
split_last-append c [] after h = ground (arith, split_last-none c after h)
split_last-append c (d ∷ before) after h = ground (arith, split_last-append c before after h)

-- A host name or an IPv4 address: no colon and no bracket.
abbrev pub IsPlainHost : Text → Type 0
IsPlainHost host = (elem b':' host ≡ false) × (elem b'[' host ≡ false) × (elem b']' host ≡ false)

split_host_port-append :
    (host port : Text)
    → IsPlainHost host
    → all is_digit port ≡ true
    → split_host_port (host ++ b':' ∷ port) ≡ some (host, port)
unfolding split_host_port elem is_digit
split_host_port-append [] port p d =
    let l = split_last-append b':' [] port (elem-digits b':' port refl d) in
    ground (arith, l, elem-digits b'[' port refl d, elem-digits b']' port refl d)
split_host_port-append (c ∷ host) port p d =
    let l = split_last-append b':' (c ∷ host) port (elem-digits b':' port refl d) in
    ground (
      arith,
      l,
      p,
      elem-digits b'[' port refl d,
      elem-digits b']' port refl d,
      elem-append b'[' host (b':' ∷ port),
      elem-append b']' host (b':' ∷ port),
    )

starts :
    (host port : Text)
    → (is_empty host && not (has_prefix (host ++ b':' ∷ port) (text ":"))) ≡ false
unfolding has_prefix
starts [] port = refl
starts (c ∷ host) port = refl

some_text : (host port : Text) → is_empty (host ++ b':' ∷ port) ≡ false
some_text [] port = refl
some_text (c ∷ host) port = refl

port_read :
    (port : Text)
    → all is_digit port ≡ true
    → is_empty port ≡ false
    → parse_uint 65535 port ≡ (if ltb 65535 (decimal port) then none else some (decimal port))
unfolding parse_uint
port_read port d e = ground (arith, d, e)

-- An address of a plain host and digits is accepted exactly if there is a port and it is at most
-- 65535. The host may be empty, for all interfaces.
pub validate_host_port_iff :
    (field host port : Text)
    → IsPlainHost host
    → all is_digit port ≡ true
    → (validate_host_port field (host ++ b':' ∷ port) ≡ ok tt)
      ↔ ((is_empty port ≡ false) × (decimal port ≤ 65535))
unfolding validate_host_port
validate_host_port_iff field host port p d =
    let s = split_host_port-append host port p d in
    let a = starts host port in
    let b = some_text host port in
    elim (Bool-cases (is_empty port)) [
      | inl e ↦ (λ h. absurd (ground (arith, s, a, b, e, h)), λ h. absurd (ground (arith, e, h.0)))
      | inr e ↦
          let r = port_read port d e in
          (λ h. (e, ground (arith, s, a, b, e, r, h)), λ h. ground (arith, s, a, b, e, r, h.1))
    ]
