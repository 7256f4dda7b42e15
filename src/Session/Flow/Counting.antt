-- ===== src/Session/Flow/Counting.antt =====
-- Counting the frames of a queue.
use airpc.Prelude.{
  ℕ, ◌+◌, ◌≡◌, refl, true, false, List, [], ◌∷◌, ◌++◌, Text, text_eq_iff, length, arith,
  if◌then◌else◌, append-nil,
}
use airpc.Tunnel.{Frame, frame_data}
use airpc.Session.{rounds, data_of}
use airpc.Session.Flow.{is_data}

unfoldable pub data_count : List Frame → ℕ
data_count [] = 0
data_count (f ∷ fs) = (if is_data f then 1 else 0) + data_count fs

unfoldable pub control_count : List Frame → ℕ
control_count [] = 0
control_count (f ∷ fs) = (if is_data f then 0 else 1) + control_count fs

-- The credit that the window frames of a queue carry.
unfoldable pub credited : List Frame → ℕ
credited [] = 0
credited (f ∷ fs) = rounds f.window + credited fs

unfoldable pub payloads : List Frame → List Text
payloads [] = []
payloads (f ∷ fs) = if is_data f then f.payload ∷ payloads fs else payloads fs

pub data_count-append : (fs gs : List Frame) → data_count (fs ++ gs) ≡ data_count fs + data_count gs
unfolding data_count
data_count-append [] gs = omega arith
data_count-append (f ∷ fs) gs = ground (arith, data_count-append fs gs)

pub control_count-append :
    (fs gs : List Frame) → control_count (fs ++ gs) ≡ control_count fs + control_count gs
unfolding control_count
control_count-append [] gs = omega arith
control_count-append (f ∷ fs) gs = ground (arith, control_count-append fs gs)

pub credited-append : (fs gs : List Frame) → credited (fs ++ gs) ≡ credited fs + credited gs
unfolding credited
credited-append [] gs = omega arith
credited-append (f ∷ fs) gs = ground (arith, credited-append fs gs)

pub payloads-append : (fs gs : List Frame) → payloads (fs ++ gs) ≡ payloads fs ++ payloads gs
unfolding payloads
payloads-append [] gs = refl
payloads-append (f ∷ fs) gs = ground (arith, payloads-append fs gs)

pub length-count : (fs : List Frame) → length fs ≡ data_count fs + control_count fs
unfolding data_count control_count
length-count [] = omega arith
length-count (f ∷ fs) = ground (arith, length-count fs)

pub is_data-data_of : (id k p : Text) → is_data (data_of id k p) ≡ true
unfolding is_data
is_data-data_of id k p = (text_eq_iff frame_data frame_data).1 refl

-- A frame at the end of a queue.
module _ (fs : List Frame) (f : Frame) where
  pub data_count-last : is_data f ≡ true → data_count (fs ++ f ∷ []) ≡ data_count fs + 1
  unfolding data_count
  data_count-last h = ground (arith, data_count-append fs (f ∷ []))

  pub data_count-last_control : is_data f ≡ false → data_count (fs ++ f ∷ []) ≡ data_count fs
  unfolding data_count
  data_count-last_control h = ground (arith, data_count-append fs (f ∷ []))

  pub control_count-last : is_data f ≡ true → control_count (fs ++ f ∷ []) ≡ control_count fs
  unfolding control_count
  control_count-last h = ground (arith, control_count-append fs (f ∷ []))

  pub control_count-last_control :
      is_data f ≡ false → control_count (fs ++ f ∷ []) ≡ control_count fs + 1
  unfolding control_count
  control_count-last_control h = ground (arith, control_count-append fs (f ∷ []))

  pub payloads-last : is_data f ≡ true → payloads (fs ++ f ∷ []) ≡ payloads fs ++ f.payload ∷ []
  unfolding payloads
  payloads-last h = rw (payloads-append fs (f ∷ []), h)

  pub payloads-last_control : is_data f ≡ false → payloads (fs ++ f ∷ []) ≡ payloads fs
  unfolding payloads
  payloads-last_control h = rw (payloads-append fs (f ∷ []), h) (append-nil (payloads fs))
