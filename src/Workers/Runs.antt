-- ===== src/Workers/Runs.antt =====
-- A worker that is started twice and stopped.
use yellowstone_common.Common.{◌≡◌, ◌≢◌, refl, arith, true, false}
use yellowstone_common.Workers.{
  IntervalWorker, new_interval_worker, start, stop, returned, Steps, rest, then, starts, stops,
}
use yellowstone_common.Workers.Lost.{start-start}
use yellowstone_common.Workers.Stopped.{start-stop}

abbrev once : IntervalWorker
once = start new_interval_worker

stopped : Steps (start once) (stop (start once))
stopped = then rest stops

start-start_example :
    ((stop (start once)).is_cancelled 0 ≡ false) × ((stop (start once)).loops 0 ≢ returned)
unfolding start stop
start-start_example =
    start-start once (stop (start once)) 0 refl (omega arith) refl (λ e. ground (arith, e)) stopped

begun : Steps new_interval_worker once
begun = then rest starts

start-stop_example :
    ((stop once).is_cancelled 0 ≡ true)
    × ((y : IntervalWorker) × Steps (stop once) y × (y.loops 0 ≡ returned))
    × ((y : IntervalWorker)
        → (stop once).loops 0 ≡ returned
        → Steps (stop once) y
        → y.loops 0 ≡ returned)
unfolding start
start-stop_example = start-stop once (stop once) 0 begun refl rest
