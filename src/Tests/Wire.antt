-- ===== src/Tests/Wire.antt =====
-- A server, and an encoding of requests in place of JSON: a text ends at a 0, and its bytes are one higher; a number
-- is its sign and its size.
use my_queue.Base.{
  zero, suc, ◌≡◌, refl, ap, none, some, List, [], ◌∷◌, ◌++◌, ℤ, pos, negsuc, Str, bytes, Assoc,
  Result, ok, err,
}
use my_queue.Collector.HttpClient.{LeaseRequest, AckRequest, Json}
use my_queue.Client.Sender.{Sender, SenderLaws}
use my_queue.Pipeline.Fields.{Value, lease_object, ack_object}
use my_queue.Pipeline.Wire.{JsonLaws}

unfoldable pub text : Str → Str → Str
text [] rest = 0 ∷ rest
text (c ∷ cs) rest = suc c ∷ text cs rest

unfoldable pub read_text : Str → Str × Str
read_text [] = ([], [])
read_text (zero ∷ rest) = ([], rest)
read_text (suc c ∷ rest) = let (cs, rest') = read_text rest in (c ∷ cs, rest')

abbrev number : ℤ → Str → Str
number (pos n) rest = 0 ∷ n ∷ rest
number (negsuc n) rest = 1 ∷ n ∷ rest

abbrev read_number : Str → ℤ × Str
read_number [] = (pos 0, [])
read_number (s ∷ []) = (pos 0, [])
read_number (zero ∷ n ∷ rest) = (pos n, rest)
read_number (suc s ∷ n ∷ rest) = (negsuc n, rest)

read-text : (s rest : Str) → read_text (text s rest) ≡ (s, rest)
unfolding text read_text
read-text [] rest = refl
read-text (c ∷ cs) rest = rw (read-text cs rest) refl

read-number : (n : ℤ) (rest : Str) → read_number (number n rest) ≡ (n, rest)
read-number (pos n) rest = refl
read-number (negsuc n) rest = refl

abbrev lease_text : LeaseRequest → Str
lease_text req =
    text req.topic (text req.consumer_id (number req.max (number req.lease_seconds [])))

abbrev ack_text : AckRequest → Str
ack_text req = text req.topic (text req.consumer_id (text req.lease_id []))

-- The kind of the object is not in its text, so that each has a mark in front.
abbrev read_object : Str → Result (Assoc Value)
read_object (zero ∷ body) =
    let (topic, r₁) = read_text body in
    let (consumer_id, r₂) = read_text r₁ in
    let (max, r₃) = read_number r₂ in
    let (lease_seconds, r₄) = read_number r₃ in
    ok (
      lease_object (record {
        topic = topic;
        consumer_id = consumer_id;
        max = max;
        lease_seconds = lease_seconds;
      }))
read_object (suc n ∷ body) =
    let (topic, r₁) = read_text body in
    let (consumer_id, r₂) = read_text r₁ in
    let (lease_id, r₃) = read_text r₂ in
    ok (ack_object (record { topic = topic; consumer_id = consumer_id; lease_id = lease_id }))
read_object [] = err (bytes "unexpected end of JSON input")

pub read-lease : (req : LeaseRequest) → read_object (0 ∷ lease_text req) ≡ ok (lease_object req)
read-lease req = rw (read-text, read-text, read-number, read-number) refl

pub read-ack : (req : AckRequest) → read_object (1 ∷ ack_text req) ≡ ok (ack_object req)
read-ack req = rw (read-text, read-text, read-text) refl

abbrev pub test_json : Json
test_json = record {
  marshal_lease = λ req. ok (0 ∷ lease_text req);
  marshal_ack = λ req. ok (1 ∷ ack_text req);
  decode_lease = λ body. ok (record { lease_id = bytes "lease-1"; messages = [] });
  decode_ack = λ body. ok (record { acked = 1 });
}

pub same_body : (a b : Str) → ◌≡◌ {A = Result Str} (ok a) (ok b) → a ≡ b
same_body a b h = cc

unfoldable pub test_wire : JsonLaws test_json
test_wire = record {
  IsUtf8 = λ s. Unit;
  object_of = read_object;
  mismatch = λ key. bytes "json: cannot unmarshal " ++ key;
  object-marshal_lease = λ req body t c h. rw (← same_body _ body h) (read-lease req);
  object-marshal_ack = λ req body t c l h. rw (← same_body _ body h) (read-ack req);
}

pub same_request : (a b : Str × Str) → some a ≡ some b → a ≡ b
same_request a b h = cc

-- A server that answers every request. The world is the request that is set up, and those that it has had.
abbrev pub test_sender : Sender
test_sender = record {
  http = record {
    World = (Str × Str) × List (Str × Str);
    send =
        λ w. (ok (record { status_code = 200; body = some (bytes "{}") }), (w.0, w.1 ++ w.0 ∷ []));
    wait = λ w d. (none, w);
  };
  new_request = λ w url body. (ok tt, ((url, body), w.1));
}

abbrev pub no_requests : (Str × Str) × List (Str × Str)
no_requests = (([], []), [])

unfoldable pub test_sender_laws : SenderLaws test_sender
test_sender_laws = record {
  current = λ w. some w.0;
  sent = λ w. w.1;
  new_request-current = λ w url body u e. refl;
  new_request-sent = λ w url body. refl;
  send-current = λ w. refl;
  send-sent = λ w r e. ap (λ x. w.1 ++ x ∷ []) (same_request w.0 r e);
  wait-current = λ w d. refl;
  wait-sent = λ w d. refl;
}
