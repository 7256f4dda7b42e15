-- ===== src/Observer/Histories.antt =====
-- The history behind the RPCs of internal/grpcobs/observer.go: which events start and end them.
use airpc.Prelude.{
  ℕ, ◌-◌, ◌≡◌, ◌≢◌, sym, ◌∙◌, ap, Bool, Option, none, some, List, [], ◌∷◌, ◌++◌, append_assoc, Text,
  text, All, All-append, ◌==◌, if◌then◌else◌, arith,
}
use mathlib.Core.Option
use airpc.Observer.{
  H2Frame, meta_headers, rst_stream, other_frame, RpcStart, Rpc, Observer, Event, client_read,
  backend_read, method_label, status_code, lookup_rpc, delete_rpc, grpc_status, step,
}

pub lookup_rpc-delete_rpc :
    (k j : ℕ) (m : List (ℕ × RpcStart))
    → lookup_rpc j (delete_rpc k m) ≡ (if k == j then none else lookup_rpc j m)
unfolding lookup_rpc delete_rpc
lookup_rpc-delete_rpc k j [] = ground arith
lookup_rpc-delete_rpc k j ((i, v) ∷ m) = ground (arith, lookup_rpc-delete_rpc k j m)

-- The stream whose RPC a frame of the backend ends, if it does, and the code.
abbrev pub ending : H2Frame → Option (ℕ × Text)
ending (meta_headers id path fields) = elim (grpc_status fields) [
  | some value ↦ some (id, status_code value)
  | none ↦ none
]
ending (rst_stream id) = some (id, text "canceled")
ending other_frame = none

-- The stream whose RPC an event starts or ends.
abbrev pub touched : Event → Option ℕ
touched (client_read t (some (meta_headers id path fields))) = some id
touched (client_read t (some (rst_stream id))) = none
touched (client_read t (some other_frame)) = none
touched (client_read t none) = none
touched (backend_read t (some f)) = Option.map (λ e. e.0) (ending f)
touched (backend_read t none) = none

abbrev pub Leaves : ℕ → Event → Type 0
Leaves id e = touched e ≢ some id

-- The headers of the client that an RPC in flight goes back to, with nothing of its stream behind them.
pub record OpenedBy (h : List Event) (id : ℕ) (s : RpcStart) : Type 0 where
  pub before : List Event
  pub since : List Event
  pub path : Text
  pub fields : List (Text × Text)
  pub history : h ≡ before ++ client_read s.start (some (meta_headers id path fields)) ∷ since
  pub method_is : s.method ≡ method_label path
  pub undisturbed : All (Leaves id) since

-- The frames that a recorded RPC goes back to: the headers of the client that started it, and the first
-- frame of the backend behind them that ended it.
pub record RecordedBy (h : List Event) (r : Rpc) : Type 0 where
  pub opened_at : List Event
  pub stream : ℕ
  pub start_of : RpcStart
  pub opened : OpenedBy opened_at stream start_of
  pub now : ℕ
  pub last : H2Frame
  pub later : List Event
  pub history : h ≡ opened_at ++ backend_read now (some last) ∷ later
  pub ended : ending last ≡ some (stream, r.code)
  pub labelled : r.method ≡ start_of.method
  pub lasted : r.duration ≡ now - start_of.start

pub record IsExplained (h : List Event) (o : Observer) : Type 0 where
  pub open_from : (id : ℕ) (s : RpcStart) → lookup_rpc id o.started ≡ some s → OpenedBy h id s
  pub recorded_from : All (RecordedBy h) o.recorded

-- Is the parser of an event still running?
abbrev pub runs : Observer → Event → Bool
runs o (client_read t f) = o.client_runs
runs o (backend_read t f) = o.backend_runs

-- The events that the parsers do read.
unfoldable pub happened : Observer → List Event → List Event
happened o [] = []
happened o (e ∷ es) = let rest = happened (step o e) es in if runs o e then e ∷ rest else rest

pub grow_opened :
    (h : List Event) (e : Event) (id : ℕ) (s : RpcStart)
    → Leaves id e
    → OpenedBy h id s
    → OpenedBy (h ++ e ∷ []) id s
grow_opened h e id s l v = record {
  before = v.before;
  since = v.since ++ e ∷ [];
  path = v.path;
  fields = v.fields;
  history =
      ap (λ t. t ++ e ∷ []) v.history
      ∙ append_assoc v.before
          (client_read s.start (some (meta_headers id v.path v.fields)) ∷ v.since) (e ∷ []);
  method_is = v.method_is;
  undisturbed = All-append (Leaves id) v.since (e ∷ []) v.undisturbed (l, tt);
}

pub grow_recorded :
    (h : List Event) (e : Event) (r : Rpc) → RecordedBy h r → RecordedBy (h ++ e ∷ []) r
grow_recorded h e r v = record {
  opened_at = v.opened_at;
  stream = v.stream;
  start_of = v.start_of;
  opened = v.opened;
  now = v.now;
  last = v.last;
  later = v.later ++ e ∷ [];
  history =
      ap (λ t. t ++ e ∷ []) v.history
      ∙ append_assoc v.opened_at (backend_read v.now (some v.last) ∷ v.later) (e ∷ []);
  ended = v.ended;
  labelled = v.labelled;
  lasted = v.lasted;
}

pub All-map {ℓ κ ι} :
    {A : Type ℓ} (P : A → Type κ) (Q : A → Type ι) (xs : List A)
    → ((a : A) → P a → Q a)
    → All P xs
    → All Q xs
All-map P Q [] f h = tt
All-map P Q (x ∷ xs) f h = (f x h.0, All-map P Q xs f h.1)

-- An event that starts and ends nothing.
pub quiet-IsExplained :
    (h : List Event) (e : Event) (o o' : Observer)
    → ((id : ℕ) → Leaves id e)
    → o'.started ≡ o.started
    → o'.recorded ≡ o.recorded
    → IsExplained h o
    → IsExplained (h ++ e ∷ []) o'
quiet-IsExplained h e o o' l p q v = record {
  open_from =
      λ id s k. grow_opened h e id s (l id) (v.open_from id s (ap (lookup_rpc id) (sym p) ∙ k));
  recorded_from = rw q (
      All-map (RecordedBy h) (RecordedBy (h ++ e ∷ [])) o.recorded (grow_recorded h e)
        v.recorded_from);
}
