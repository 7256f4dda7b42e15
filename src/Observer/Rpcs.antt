-- ===== src/Observer/Rpcs.antt =====
-- The RPCs that the observer of internal/grpcobs/observer.go records: which frames each goes back to.
use airpc.Prelude.{
  ℕ, ◌≡◌, ◌≢◌, inl, inr, refl, subst, Bool, true, false, Option, none, some, List, [], ◌∷◌, ◌++◌,
  append_assoc, append-nil, Text, All, All-append, ◌==◌, arith, Bool-cases, Option-cases,
}
use airpc.Observer.{
  H2Frame, meta_headers, rst_stream, other_frame, RpcStart, Observer, Event, client_read,
  backend_read, method_label, status_code, lookup_rpc, delete_rpc, start_rpc, finish, client_frame,
  backend_frame, grpc_status, step, observe, new_observer,
}
use airpc.Observer.Histories.{
  lookup_rpc-delete_rpc, ending, OpenedBy, RecordedBy, IsExplained, runs, happened, grow_opened,
  grow_recorded, All-map, quiet-IsExplained,
}

client_frame-IsExplained :
    (h : List Event) (t : ℕ) (f : Option H2Frame) (o : Observer)
    → IsExplained h o
    → IsExplained (h ++ client_read t f ∷ []) (client_frame t f o)
unfolding client_frame start_rpc lookup_rpc
client_frame-IsExplained h t none o v =
    quiet-IsExplained h (client_read t none) o _ (λ id. ground arith) refl refl v
client_frame-IsExplained h t (some (rst_stream id)) o v =
    quiet-IsExplained h (client_read t (some (rst_stream id))) o _ (λ id. ground arith) refl refl v
client_frame-IsExplained h t (some other_frame) o v =
    quiet-IsExplained h (client_read t (some other_frame)) o _ (λ id. ground arith) refl refl v
client_frame-IsExplained h t (some (meta_headers id path fields)) o v = record {
  open_from = λ j s k. elim (Bool-cases (id == j)) [
    | inl same ↦
        let fresh : RpcStart = record { method = method_label path; start = t } in
        let here : OpenedBy (h ++ e ∷ []) id fresh = record {
          before = h;
          since = [];
          path = path;
          fields = fields;
          history = refl;
          method_is = refl;
          undisturbed = tt;
        } in
        let is_fresh : fresh ≡ s = ground arith in
        let is_id : id ≡ j = ground arith in
        subst (λ i. OpenedBy (h ++ e ∷ []) i s) is_id
          (subst (λ x. OpenedBy (h ++ e ∷ []) id x) is_fresh here)
    | inr other ↦
        grow_opened h e j s (ground arith)
          (v.open_from j s (ground (arith, lookup_rpc-delete_rpc id j o.started)))
  ];
  recorded_from =
      All-map (RecordedBy h) (RecordedBy (h ++ e ∷ [])) o.recorded (grow_recorded h e)
        v.recorded_from;
}
  where
    e : Event
    e = client_read t (some (meta_headers id path fields))

module _ (h : List Event) (t id : ℕ) (code : Text) (f : H2Frame) (o : Observer)
    (ended : ending f ≡ some (id, code)) (v : IsExplained h o) where
  kept_open :
      (j : ℕ) (s : RpcStart)
      → lookup_rpc j (delete_rpc id o.started) ≡ some s
      → OpenedBy (h ++ backend_read t (some f) ∷ []) j s
  kept_open j s k =
      let e = lookup_rpc-delete_rpc id j o.started in
      let other : id ≢ j = ground arith in
      grow_opened h _ j s (ground (arith, ended)) (v.open_from j s (ground arith))

  kept_recorded : All (RecordedBy (h ++ backend_read t (some f) ∷ [])) o.recorded
  kept_recorded =
      All-map (RecordedBy h) (RecordedBy (h ++ backend_read t (some f) ∷ [])) o.recorded
        (grow_recorded h _) v.recorded_from

  finish-IsExplained : IsExplained (h ++ backend_read t (some f) ∷ []) (finish t id code o)
  unfolding finish
  finish-IsExplained = elim (Option-cases (lookup_rpc id o.started)) [
    | inl unknown ↦
        rw (unknown, finish) (record { open_from = kept_open; recorded_from = kept_recorded })
    | inr (rpc, known) ↦
        rw (known, finish)
          (record {
            open_from = kept_open;
            recorded_from =
                All-append (RecordedBy (h ++ backend_read t (some f) ∷ [])) o.recorded _
                  kept_recorded
                  (
                    record {
                      opened_at = h;
                      stream = id;
                      start_of = rpc;
                      opened = v.open_from id rpc known;
                      now = t;
                      last = f;
                      later = [];
                      history = refl;
                      ended = ended;
                      labelled = refl;
                      lasted = refl;
                    },
                    tt,
                  );
          })
  ]

backend_frame-IsExplained :
    (h : List Event) (t : ℕ) (f : Option H2Frame) (o : Observer)
    → IsExplained h o
    → IsExplained (h ++ backend_read t f ∷ []) (backend_frame t f o)
unfolding backend_frame
backend_frame-IsExplained h t none o v =
    quiet-IsExplained h (backend_read t none) o _ (λ id. ground arith) refl refl v
backend_frame-IsExplained h t (some other_frame) o v =
    quiet-IsExplained h (backend_read t (some other_frame)) o _ (λ id. ground arith) refl refl v
backend_frame-IsExplained h t (some (rst_stream id)) o v =
    finish-IsExplained h t id _ (rst_stream id) o refl v
backend_frame-IsExplained h t (some (meta_headers id path fields)) o v =
    elim (Option-cases (grpc_status fields)) [
      | inl without ↦
          rw (without, backend_frame)
            (quiet-IsExplained h (backend_read t (some (meta_headers id path fields))) o _
              (λ id. ground arith) refl refl v)
      | inr (value, found) ↦
          rw (found, backend_frame)
            (finish-IsExplained h t id (status_code value) (meta_headers id path fields) o
              (rw (found, ending) refl) v)
    ]

step-IsExplained :
    (h : List Event) (o : Observer) (e : Event)
    → runs o e ≡ true
    → IsExplained h o
    → IsExplained (h ++ e ∷ []) (step o e)
unfolding step
step-IsExplained h o (client_read t f) r v =
    let same : step o (client_read t f) ≡ client_frame t f o = ground arith in
    rw same (client_frame-IsExplained h t f o v)
step-IsExplained h o (backend_read t f) r v =
    let same : step o (backend_read t f) ≡ backend_frame t f o = ground arith in
    rw same (backend_frame-IsExplained h t f o v)

step_stopped : (o : Observer) (e : Event) → runs o e ≡ false → step o e ≡ o
unfolding step
step_stopped o (client_read t f) r = ground arith
step_stopped o (backend_read t f) r = ground arith

observe-IsExplained :
    (h : List Event) (o : Observer) (es : List Event)
    → IsExplained h o
    → IsExplained (h ++ happened o es) (observe o es)
unfolding observe happened
observe-IsExplained h o [] v = rw (append-nil h) v
observe-IsExplained h o (e ∷ es) v = elim (Bool-cases (runs o e)) [
  | inl running ↦
      let ih = observe-IsExplained (h ++ e ∷ []) (step o e) es (step-IsExplained h o e running v) in
      rw running (
        subst (λ l. IsExplained l (observe (step o e) es))
          (append_assoc h (e ∷ []) (happened (step o e) es)) ih)
  | inr over ↦
      let same = step_stopped o e over in
      let ih = observe-IsExplained h o es v in rw (over, same) ih
]

no_rpc : (id : ℕ) (s : RpcStart) → lookup_rpc id [] ≡ some s → ⊥
unfolding lookup_rpc
no_rpc id s k = ground arith

-- Every RPC that an observer records goes back to headers of the client that started it and to the first
-- frame of the backend behind them that ended it, on the same stream, with no other start or end of an RPC
-- on that stream between; its labels and its duration are theirs.
pub observe-RecordedBy :
    (preface_read : Bool) (es : List Event)
    → All
        (RecordedBy (happened (new_observer preface_read) es))
        (observe (new_observer preface_read) es).recorded
observe-RecordedBy preface_read es =
    (observe-IsExplained [] (new_observer preface_read) es
      (record { open_from = λ id s k. absurd (no_rpc id s k); recorded_from = tt })).recorded_from
