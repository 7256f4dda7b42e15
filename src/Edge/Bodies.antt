-- ===== src/Edge/Bodies.antt =====
-- A streamed body on both sides: internal/connector/proxy.go copies it into frames, and
-- internal/edge/edge.go writes them to the client.
use airpc.Prelude.{
  ◌≡◌, refl, sym, ◌∙◌, ap, inl, inr, Bool, true, false, List, [], ◌∷◌, ◌++◌, Text, text_eq,
  is_empty, map, arith, Bool-cases, if◌then◌else◌,
}
use airpc.Tunnel.{Frame}
use airpc.Connector.Bodies.{copy_body}
use airpc.Edge.Streams.{Event, received, complete, aborted, relay_body}

-- The bytes of a body, and the frames as they reach a client that reads.
abbrev pub bytes_of : List Text → Text
bytes_of [] = []
bytes_of (t ∷ ts) = t ++ bytes_of ts

abbrev pub arriving : List Frame → List Event
arriving frames = map (λ f. received f true) frames

skipped : (chunk : Text) (rest : Text) → is_empty chunk ≡ true → chunk ++ rest ≡ rest
skipped [] rest h = refl
skipped (c ∷ chunk) rest h = absurd (ground arith)

-- While every frame of the body comes in order, each can be written to the client, and neither the client
-- nor the session is done before the last: the client gets the very bytes of the backend's body, and its
-- response is complete if the backend's body ended cleanly and cut off otherwise.
pub relay_body-copy_body :
    (id : Text) (chunks : List Text) (clean : Bool)
    → (bytes_of (relay_body (arriving (copy_body id chunks clean))).body ≡ bytes_of chunks)
      × ((relay_body (arriving (copy_body id chunks clean))).ending
          ≡ (if clean then complete else aborted))
unfolding relay_body copy_body text_eq
relay_body-copy_body id [] true = (refl, refl)
relay_body-copy_body id [] false = (refl, refl)
relay_body-copy_body id (chunk ∷ chunks) clean =
    let (bytes, ending) = relay_body-copy_body id chunks clean in
    elim (Bool-cases (is_empty chunk)) [
      | inl e ↦ rw e (bytes ∙ sym (skipped chunk (bytes_of chunks) e), ending)
      | inr e ↦ rw e (ap (λ b. chunk ++ b) bytes, ending)
    ]
