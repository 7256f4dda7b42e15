-- ===== src/Link/Isolation.antt =====
-- Sessions that share a link of internal/datatunnel do not disturb one another, and no frame for a
-- session gets lost silently.
use airpc.Prelude.{
  ℕ, ◌≤◌, ◌<◌, ◌≡◌, ◌≢◌, refl, sym, ◌∙◌, ap, Bool, false, List, [], ◌∷◌, ◌++◌, some, none, inl, inr,
  Text, text, text_eq, text_eq_iff, text_eq_ne, length, get_elem?, get_elem?-modify, lookup,
  lookup-erase, arith, Bool-cases, Option-cases,
}
use airpc.Codec.{Codec}
use airpc.Tunnel.{Frame, frame_window}
use airpc.Session.{
  Session, recv_capacity, add_send_credit, arrive, Arrival, buffered, ignored, overrun, mark_done,
  error_of,
}
use airpc.Link.{Link, find, change, remove_session, try_write, arrived, dispatch_to, dispatch}
use airpc.Link.Steps.{try_write_same}

-- The session at `q` and the way to it are the same in both links.
pub record Untouched (l l' : Link) (q : ℕ) (id : Text) : Type 0 where
  pub same_session : get_elem? l'.store q ≡ get_elem? l.store q
  pub same_entry : find id l' ≡ find id l

remove_session-Untouched :
    (l : Link) (id : Text) (q : ℕ) (other : Text)
    → find id l ≢ some q
    → id ≢ other
    → Untouched l (remove_session id l) q other
unfolding remove_session
remove_session-Untouched l id q other away ne = elim (Option-cases (lookup id l.sessions)) [
  | inl e ↦
      rw (e, remove_session)
        (record {
          same_session = refl;
          same_entry = ground (arith, lookup-erase id other l.sessions, text_eq_iff id other);
        })
  | inr (p, e) ↦
      rw (e, remove_session)
        (record {
          same_session = ground (arith, get_elem?-modify mark_done p q l.store);
          same_entry = ground (arith, lookup-erase id other l.sessions, text_eq_iff id other);
        })
]

module _ (c : Codec Frame) (pick : Bool) (f : Frame) (l : Link) where
  -- The write before a removal changes neither session nor entry.
  killed-Untouched :
      (g : Frame) (q : ℕ) (other : Text)
      → find f.session_id l ≢ some q
      → f.session_id ≢ other
      → Untouched l (remove_session f.session_id (try_write c g l)) q other
  killed-Untouched g q other away ne =
      let same = try_write_same c g l in
      let u =
        remove_session-Untouched (try_write c g l) f.session_id q other
          (λ e. away (sym (ap (lookup f.session_id) same.1) ∙ e)) ne in
      record {
        same_session = u.same_session ∙ ap (λ (st : List Session). get_elem? st q) same.0;
        same_entry = u.same_entry ∙ ap (lookup other) same.1;
      }

  -- A change at one address leaves every other.
  changed-Untouched :
      (g : Session → Session) (p q : ℕ) (other : Text) → p ≢ q → Untouched l (change g p l) q other
  changed-Untouched g p q other ne = record {
    same_session = ground (arith, get_elem?-modify g p q l.store);
    same_entry = refl;
  }

  -- A frame that arrives changes no session but the one that its id names, and no other entry of
  -- the map: a session that stalls, overruns its window or is killed does not touch the others.
  pub dispatch-Untouched :
      (q : ℕ) (other : Text)
      → find f.session_id l ≢ some q
      → f.session_id ≢ other
      → Untouched l (dispatch c pick f l) q other
  unfolding dispatch dispatch_to
  dispatch-Untouched q other away ne = elim (Option-cases (lookup f.session_id l.sessions)) [
    | inl e ↦ rw (e, dispatch) (record { same_session = refl; same_entry = refl })
    | inr (p, e) ↦ elim (Option-cases (get_elem? l.store p)) [
      | inl a ↦ rw (e, a, dispatch) (record { same_session = refl; same_entry = refl })
      | inr (s, a) ↦ rw (e, a, dispatch) (at_session p s (λ pq. away (e ∙ ap some pq)))
    ]
  ]
    where
      arrives_at : (p : ℕ) → p ≢ q → (a : Arrival) → Untouched l (arrived c f p a l) q other
      arrives_at p pq (buffered t) = changed-Untouched (λ _. t) p q other pq
      arrives_at p pq ignored = record { same_session = refl; same_entry = refl }
      arrives_at p pq overrun = killed-Untouched _ q other away ne

      at_session : (p : ℕ) (s : Session) → p ≢ q → Untouched l (dispatch_to c pick f p s l) q other
      at_session p s pq = elim (Bool-cases (text_eq f.frame_type frame_window)) [
        | inl w ↦ rw (w, dispatch_to) (changed-Untouched (add_send_credit f.window) p q other pq)
        | inr w ↦ rw (w, dispatch_to) (arrives_at p pq (arrive pick f s))
      ]

-- What becomes of a frame for an open session: it is queued behind the others, or the queue is full
-- and the session is killed and its entry removed.
pub data Fate (f : Frame) (p : ℕ) (s : Session) (l l' : Link) : Type 0 where
  queued :
      length s.recv < recv_capacity
      → get_elem? l'.store p ≡ some (record s { recv = s.recv ++ f ∷ [] })
      → l'.sessions ≡ l.sessions
      → Fate f p s l l'
  killed :
      recv_capacity ≤ length s.recv
      → get_elem? l'.store p ≡ some (mark_done s)
      → find f.session_id l' ≡ none
      → Fate f p s l l'

remove_session-killed :
    (l : Link) (id : Text) (p : ℕ) (s : Session)
    → find id l ≡ some p
    → get_elem? l.store p ≡ some s
    → (get_elem? (remove_session id l).store p ≡ some (mark_done s))
      × (find id (remove_session id l) ≡ none)
unfolding remove_session
remove_session-killed l id p s e at =
    rw (e, remove_session)
      (
        ground (arith, get_elem?-modify mark_done p p l.store),
        ground (arith, lookup-erase id id l.sessions, text_eq_iff id id),
      )

-- A data or control frame for a registered, open session is never dropped: it is queued in order
-- while there is room, and otherwise the session is killed.
pub dispatch-Fate :
    (c : Codec Frame) (pick : Bool) (f : Frame) (l : Link) (p : ℕ) (s : Session)
    → find f.session_id l ≡ some p
    → get_elem? l.store p ≡ some s
    → s.done ≡ false
    → f.frame_type ≢ frame_window
    → Fate f p s l (dispatch c pick f l)
unfolding dispatch dispatch_to arrive
dispatch-Fate c pick f l p s e at open_ other =
    rw (e, at, text_eq_ne f.frame_type frame_window other, dispatch) (go (arrive pick f s) refl)
  where
    go : (a : Arrival) → arrive pick f s ≡ a → Fate f p s l (arrived c f p a l)
    go (buffered t) q =
        queued (ground arith) (ground (arith, get_elem?-modify (λ _. t) p p l.store)) refl
    go ignored q = absurd (ground arith)
    go overrun q =
        let g = error_of f.session_id (text "flow control violation") in
        let same = try_write_same c g l in
        let k =
          remove_session-killed (try_write c g l) f.session_id p s
            (ap (lookup f.session_id) same.1 ∙ e)
            (ap (λ (st : List Session). get_elem? st p) same.0 ∙ at) in
        killed (ground arith) k.0 k.1
