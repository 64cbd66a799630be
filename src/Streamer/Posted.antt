-- ===== src/Streamer/Posted.antt =====
-- What the streamer asks the HTTP client to send.
use mathlib.Core.List.{append-nil}
use my_queue.Base.{
  ℕ, suc, ◌≤◌, ◌≡◌, ◌≢◌, refl, sym, Option, none, some, List, [], ◌∷◌, ◌++◌, pos, Str, Result, ok,
  err, ◌>>=◌, ◌==◌, Bool-cases, inl, inr,
}
use my_queue.Client.{Response}
use my_queue.Client.Sender.{Sender, SenderLaws, IsValid, copies, post-IsPosted}
use my_queue.Streamer.Rows.{TelemetryRow}
use my_queue.Streamer.Publish.{
  MqPublishResponse, Json, Outcome, panicked, row_failed, request_failed, create_failed,
  publish_failed, bad_status, bad_response, published, payload_of, request_of, decoded, outcome_of,
  send_request, send_body, send_row, publish_message, go_on,
}

-- The request for a row, unless it cannot be encoded.
abbrev pub entry : Str → Result Str → List (Str × Str)
entry url (ok body) = (url, body) ∷ []
entry url (err e) = []

pub posted : Json → Str → List TelemetryRow → List (Str × Str)
posted json url [] = []
posted json url (row ∷ rows) =
    entry url (json.marshal_payload (payload_of row) >>= λ j. json.marshal_request (request_of j))
    ++ posted json url rows

-- A list of requests as it looks when each one of another list is handed over in turn, at least once and
-- at most `n` times more.
unfoldable pub Repeated : ℕ → List (Str × Str) → List (Str × Str) → Type 0
Repeated n [] xs = xs ≡ []
Repeated n (r ∷ rs) xs =
    (k : ℕ) × (rest : List (Str × Str)) × (k ≤ n)
    × (xs ≡ copies (suc k) r ++ rest)
    × Repeated n rs rest

module _ (json : Json) (sender : Sender) (laws : SenderLaws sender) (max_retries : ℕ) where
  open laws use {sent}

  -- The requests have been handed over in turn, each up to `max_retries` more times.
  abbrev pub IsSentInTurn : List (Str × Str) → sender.http.World → sender.http.World → Type 0
  IsSentInTurn es w w' =
      (xs : List (Str × Str)) × Repeated max_retries es xs × (sent w' ≡ sent w ++ xs)

  outcome_of-ne :
      (r : Result (Option Response))
      → r ≢ ok none
      → outcome_of json sender (pos max_retries) r ≢ panicked
  outcome_of-ne (err e) h = λ x. cc
  outcome_of-ne (ok none) h = absurd (h refl)
  outcome_of-ne (ok (some r)) h = elim (Bool-cases (r.status_code == 200)) [
    | inl e ↦ rw e (decoded-ne (json.decode r.body))
    | inr e ↦ rw e (λ x. cc)
  ]
    where
      decoded-ne :
          (d : Result MqPublishResponse) → decoded json sender (pos max_retries) d ≢ panicked
      decoded-ne (ok r) = λ x. cc
      decoded-ne (err e) = λ x. cc

  -- What becomes of one row.
  abbrev IsPosted : sender.http.World → List (Str × Str) → Outcome × sender.http.World → Type 0
  IsPosted w es t = (t.0 ≢ panicked) × IsSentInTurn es w t.1

  none_sent : (w : sender.http.World) → IsSentInTurn [] w w
  unfolding Repeated
  none_sent w = ([], refl, sym (append-nil (sent w)))

  send_body-IsPosted :
      (url : Str) (r : Result Str) (w : sender.http.World)
      → IsValid sender url
      → IsPosted w (entry url r) (send_body json sender (pos max_retries) url r w)
  unfolding send_body send_request Repeated
  send_body-IsPosted url (err e) w v = ((λ x. cc), none_sent w)
  send_body-IsPosted url (ok body) w v =
      let (answer, over) = post-IsPosted sender laws max_retries w url body v in
      let (k, below, more) = over in
      let here = copies (suc k) (url, body) in
      rw (v w body)
        (outcome_of-ne _ answer, (here, (k, [], below, sym (append-nil here), refl), more))

  pub publish-IsPosted :
      (url : Str) (row : TelemetryRow) (w : sender.http.World)
      → IsValid sender url
      → IsPosted w
          (entry url
            (json.marshal_payload (payload_of row) >>= λ j. json.marshal_request (request_of j)))
          (publish_message json sender (pos max_retries) url row w)
  unfolding publish_message send_row
  publish-IsPosted url row w v = encoded (json.marshal_payload (payload_of row))
    where
      encoded :
          (r : Result Str)
          → IsPosted w
              (entry url (r >>= λ j. json.marshal_request (request_of j)))
              (send_row json sender (pos max_retries) url r w)
      encoded (err e) = ((λ x. cc), none_sent w)
      encoded (ok j) = send_body-IsPosted url (json.marshal_request (request_of j)) w v

  pub go_on-ne :
      {W : Type 0} (o : Outcome) (w : W) (rest : List Outcome × W)
      → o ≢ panicked
      → (go_on json sender (pos max_retries) o w rest).1 ≡ rest.1
  go_on-ne panicked w rest h = absurd (h refl)
  go_on-ne (row_failed e) w rest h = refl
  go_on-ne (request_failed e) w rest h = refl
  go_on-ne (create_failed e) w rest h = refl
  go_on-ne (publish_failed e) w rest h = refl
  go_on-ne (bad_status n) w rest h = refl
  go_on-ne (bad_response e) w rest h = refl
  go_on-ne (published r) w rest h = refl
