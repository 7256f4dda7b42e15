-- ===== src/Link/Steps.antt =====
-- Every operation of internal/datatunnel keeps the registry consistent.
use airpc.Prelude.{
  ℕ, ◌≡◌, refl, inl, inr, some, Text, get_elem?, lookup, Result, ok, err, arith, Option-cases,
  Result-cases,
}
use airpc.Codec.{Codec}
use airpc.Tunnel.{Frame}
use airpc.Session.{Session}
use airpc.Session.Credit.{IsBounded}
use airpc.Link.{
  Link, LinkError, new_link, change, add_session, remove_session, write_frame, try_write,
  open_session,
}
use airpc.Link.Registry.{
  IsConsistent, empty-Agrees, change-Agrees, add-Agrees, erase-Agrees, remove-Agrees,
}

pub new_link-IsConsistent : IsConsistent new_link
unfolding new_link
new_link-IsConsistent = empty-Agrees

-- What an allocation leaves.
abbrev pub Allocates : Result LinkError (ℕ × Link) → Type 0
Allocates (ok (p, l)) = IsConsistent l
Allocates (err e) = Unit

module _ (l : Link) (v : IsConsistent l) where
  -- A session is replaced by one that keeps the id, the `done` channel and the bounds.
  pub replaced :
      (p : ℕ) (s t : Session)
      → get_elem? l.store p ≡ some s
      → t.id ≡ s.id
      → t.done ≡ s.done
      → IsBounded t
      → IsConsistent (change (λ _. t) p l)
  replaced p s t at same_id same_done b =
      change-Agrees l.store l.sessions v (λ _. t) p (λ r e. ground arith) (λ r e. ground arith)
        (λ r e w. b)

  pub remove_session-IsConsistent : (id : Text) → IsConsistent (remove_session id l)
  unfolding remove_session
  remove_session-IsConsistent id = elim (Option-cases (lookup id l.sessions)) [
    | inl free ↦ rw (free, remove_session) (erase-Agrees l.store l.sessions v id free)
    | inr (p, found) ↦ rw (found, remove_session) (remove-Agrees l.store l.sessions v id p found)
  ]

  pub add_session-IsConsistent : (id : Text) → Allocates (add_session id l)
  unfolding add_session
  add_session-IsConsistent id = elim (Option-cases (lookup id l.sessions)) [
    | inl free ↦ rw (free, add_session) (add-Agrees l.store l.sessions v id free)
    | inr (q, found) ↦ rw (found, add_session) tt
  ]

-- A write changes neither the map nor the store.
module _ (c : Codec Frame) (f : Frame) (l : Link) where
  pub write_frame_same :
      (l' : Link) → write_frame c f l ≡ ok l' → (l'.store ≡ l.store) × (l'.sessions ≡ l.sessions)
  unfolding write_frame
  write_frame_same l' e = ground arith

  pub try_write_same :
      ((try_write c f l).store ≡ l.store) × ((try_write c f l).sessions ≡ l.sessions)
  unfolding try_write
  try_write_same = elim (Result-cases (write_frame c f l)) [
    | inl (l', e) ↦ rw (e, try_write) (write_frame_same l' e)
    | inr (e, q) ↦ rw (q, try_write) (refl, refl)
  ]

  pub try_write-IsConsistent : IsConsistent l → IsConsistent (try_write c f l)
  try_write-IsConsistent v = rw (try_write_same.0, try_write_same.1) v

module _ (c : Codec Frame) (l : Link) (v : IsConsistent l) where
  pub open_session-IsConsistent : (f : Frame) → IsConsistent (open_session c f l).1
  unfolding open_session
  open_session-IsConsistent f =
      go (add_session f.session_id l) refl (add_session-IsConsistent l v f.session_id)
    where
      wrote :
          (p : ℕ) (l1 : Link) (w : Result LinkError Link)
          → add_session f.session_id l ≡ ok (p, l1)
          → write_frame c f l1 ≡ w
          → IsConsistent l1
          → IsConsistent (open_session c f l).1
      wrote p l1 (ok l2) q r k =
          let same = write_frame_same c f l1 l2 r in rw (q, r, open_session) (rw (same.0, same.1) k)
      wrote p l1 (err e) q r k =
          rw (q, r, open_session) (remove_session-IsConsistent l1 k f.session_id)

      go :
          (r : Result LinkError (ℕ × Link))
          → add_session f.session_id l ≡ r
          → Allocates r
          → IsConsistent (open_session c f l).1
      go (ok (p, l1)) q k = wrote p l1 (write_frame c f l1) q refl k
      go (err e) q k = rw (q, open_session) v

  pub closes-IsConsistent :
      (f : Frame) (id : Text) → IsConsistent (remove_session id (try_write c f l))
  closes-IsConsistent f id =
      remove_session-IsConsistent (try_write c f l) (try_write-IsConsistent c f l v) id
