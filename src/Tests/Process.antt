-- ===== src/Tests/Process.antt =====
-- The probes, with a client that finds the reader healthy.
use my_queue.Base.{◌≡◌, some, ok, err, Str, bytes, Result}
use my_queue.Client.Get.{Getter}
use my_queue.Process.Probes.{
  IsReadyIf, IsHealthy, collector_asks, collector_readyz, collector_readyz-IsReadyIf,
}

-- The world is the URL that was asked for last.
abbrev test_getter : Getter
test_getter = record {
  http = record {
    World = Str;
    send = λ w. (ok (record { status_code = 200; body = some (bytes "{}") }), w);
    wait = λ w d. (some (bytes "cancelled"), w);
  };
  new_get = λ w url. (ok tt, url);
}

abbrev pinged : Result (Unit {0})
pinged = ok tt

collector_readyz-IsReadyIf_example :
    let t = collector_readyz test_getter (bytes "http://r") (bytes "idle") pinged in
    IsReadyIf
      (bytes "collector")
      ((pinged ≡ ok tt)
        × IsHealthy (collector_asks test_getter (bytes "http://r") (bytes "idle")).0)
      t.0
    × ((e : Str) → pinged ≡ err e → t.1 ≡ bytes "idle")
collector_readyz-IsReadyIf_example =
    collector_readyz-IsReadyIf test_getter (bytes "http://r") (bytes "idle") pinged
