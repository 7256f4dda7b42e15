-- ===== src/Edge/Drops.antt =====
-- Which links stay connected when the registry of internal/edge/data.go closes some.
use airpc.Prelude.{
  ℕ, ◌≡◌, inl, inr, refl, sym, ◌∙◌, ap, true, false, List, [], ◌∷◌, Option, none, some, Text,
  text_eq, length, lookup, get_elem?, length-modify, modify, modify_split, arith, Bool-cases,
}
use airpc.Link
use airpc.Link.{Link}
use airpc.Edge.Tunnels.{close_old, close_links}

-- The links that are connected afterwards were so before.
abbrev pub Fewer : List Link → List Link → Type 0
Fewer before after =
    (p : ℕ) (l : Link)
    → get_elem? after p ≡ some l
    → l.connected ≡ true
    → (k : Link) × (get_elem? before p ≡ some k) × (k.connected ≡ true)

pub modify-Fewer :
    (g : Link → Link) (p : ℕ) (links : List Link)
    → ((l : Link) → get_elem? links p ≡ some l → (g l).connected ≡ true → l.connected ≡ true)
    → Fewer links (modify g p links)
modify-Fewer g p links h q l e c = elim (modify_split g p q links l e) [
  | inl (pq, (k, at, w)) ↦
      (k, at, h k (ap (get_elem? links) pq ∙ at) (ap (λ (m : Link). m.connected) (sym w) ∙ c))
  | inr (ne, at) ↦ (l, at, c)
]

pub close-Fewer : (p : ℕ) (links : List Link) → Fewer links (modify Link.close p links)
unfolding Link.close
close-Fewer p links = modify-Fewer Link.close p links (λ l e c. absurd (ground arith))

-- What is closed stays so, and every link of the map is closed.
pub close_links-Fewer :
    (m : List (Text × ℕ)) (links : List Link) → Fewer links (close_links m links)
unfolding close_links
close_links-Fewer [] links p l e c = (l, e, c)
close_links-Fewer ((id, q) ∷ m) links p l e c =
    let (k, at, d) = close_links-Fewer m (modify Link.close q links) p l e c in
    close-Fewer q links p k at d

pub closed_at :
    (p : ℕ) (links : List Link) (l : Link)
    → get_elem? (modify Link.close p links) p ≡ some l
    → l.connected ≡ false
unfolding Link.close
closed_at p links l e = elim (modify_split Link.close p p links l e) [
  | inl (pq, (k, at, w)) ↦ ap (λ (m : Link). m.connected) w
  | inr (ne, at) ↦ absurd (ne refl)
]

pub close_links-closed :
    (m : List (Text × ℕ)) (links : List Link) (p : ℕ) (l : Link) (id : Text)
    → lookup id m ≡ some p
    → get_elem? (close_links m links) p ≡ some l
    → l.connected ≡ false
unfolding close_links lookup
close_links-closed [] links p l id h e = absurd (ground arith)
close_links-closed ((j, q) ∷ m) links p l id h e = elim (Bool-cases (text_eq j id)) [
  | inr ne ↦ close_links-closed m (modify Link.close q links) p l id (ground (arith, ne, h)) e
  | inl eq ↦ elim (Bool-cases l.connected) [
    | inr off ↦ off
    | inl on ↦
        let (k, at, d) = close_links-Fewer m (modify Link.close q links) p l e on in
        let pq : q ≡ p = ground (arith, eq, h) in
        let off = closed_at q links k (ap (get_elem? (modify Link.close q links)) pq ∙ at) in
        absurd (ground (arith, off, d))
  ]
]

pub length-close_links :
    (m : List (Text × ℕ)) (links : List Link) → length (close_links m links) ≡ length links
unfolding close_links
length-close_links [] links = refl
length-close_links ((id, q) ∷ m) links =
    length-close_links m (modify Link.close q links) ∙ length-modify Link.close q links

pub length-close_old :
    (o : Option ℕ) (links : List Link) → length (close_old o links) ≡ length links
length-close_old none links = refl
length-close_old (some q) links = length-modify Link.close q links

pub close_old-Fewer : (o : Option ℕ) (links : List Link) → Fewer links (close_old o links)
close_old-Fewer none links p l e c = (l, e, c)
close_old-Fewer (some q) links p l e c = close-Fewer q links p l e c

-- The link that a name had is closed when another one takes its place.
pub old_closed :
    (o : Option ℕ) (links : List Link) (p : ℕ) (l : Link)
    → o ≡ some p
    → get_elem? (close_old o links) p ≡ some l
    → l.connected ≡ false
old_closed none links p l h e = absurd (ground arith)
old_closed (some q) links p l h e =
    let qp : q ≡ p = ground arith in
    closed_at q links l (ap (get_elem? (modify Link.close q links)) qp ∙ e)
