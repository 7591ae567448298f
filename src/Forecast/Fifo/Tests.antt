-- ===== src/Forecast/Fifo/Tests.antt =====
-- A ring of two places, of which the second holds a 7.
use administracion_servicios.Prelude.{ℕ, ◌≡◌, refl, [], ◌∷◌, arith}
use administracion_servicios.Forecast.Fifo.{FifoQueue, queue_alloc, queue_push, queue_pop}
use administracion_servicios.Forecast.Fifo.Refine.{Represents, queue_refines}

abbrev ring : FifoQueue ℕ
ring = record { queue = 4 ∷ 7 ∷ []; capacity = 2; head = 1; tail = 0 }

ring-Represents : Represents 0 ring (7 ∷ [])
ring-Represents = record {
  some_room = omega arith;
  all_places = refl;
  within = omega arith;
  end_at = refl;
  holds = (refl, tt);
}

queue_refines_example : ((queue_pop 0 ring).0 ≡ 7) × Represents 0 (queue_pop 0 ring).1 []
queue_refines_example = (queue_refines {V = ℕ} 0).2 ring 7 [] ring-Represents

abbrev pushed : FifoQueue ℕ
pushed = queue_push (queue_alloc (9 ∷ 9 ∷ [])) 3

queue_pop-queue_push_test : (queue_pop 0 pushed).0 ≡ 3
unfolding queue_alloc queue_push queue_pop
queue_pop-queue_push_test = refl
