-- ===== src/Tests/Client.antt =====
-- The retrying client, against a server that is ready from its second request on.
use my_queue.Base.{ℕ, ◌+◌, ◌≡◌, refl, true, false, none, arith, pos, ok, if◌then◌else◌, ◌==◌}
use my_queue.Client.{
  Http, is_transient, give_up, answered, do_request, world_at, do_request-repeats,
}

-- The number of requests that were sent.
abbrev test_http : Http
test_http = record {
  World = ℕ;
  send = λ w. (ok (record { status_code = if w == 0 then 503 else 200; body = none }), w + 1);
  wait = λ w delay. (none, w);
}

do_request-repeats_example :
    let (r, w') = test_http.send (world_at test_http 1 0 0) in
    (is_transient r ≡ false → do_request test_http (pos 3) 0 ≡ (answered r, w'))
    × (is_transient r ≡ true → ◌≡◌ {A = ℕ} 1 3 → do_request test_http (pos 3) 0 ≡ (give_up 4 r, w'))
do_request-repeats_example =
    do_request-repeats test_http 1 3 0 (omega arith) (unfold is_transient in refl, refl, tt)
