-- ===== src/Forecast/Fifo.antt =====
-- The queue of the smoother in rrdtool-1.4.5/src/rrd_hw.c: a ring of a fixed number of places, which
-- are not set when it is allocated.
pub mod Refine
mod Tests
use administracion_servicios.Prelude.{ℕ, ◌+◌, ◌%◌, Bool, List, ◌==◌, get_or, set, length}

-- `FIFOqueue`
pub record FifoQueue (V : Type 0) : Type 0 where
  pub queue : List V
  pub capacity : ℕ
  pub head : ℕ
  pub tail : ℕ

module _ {V : Type 0} where
  -- `queue_alloc`, with the memory that `malloc` returns
  unfoldable pub queue_alloc : List V → FifoQueue V
  queue_alloc memory = record {
    queue = memory;
    capacity = length memory;
    head = length memory;
    tail = 0;
  }

  unfoldable pub queue_isempty : FifoQueue V → Bool
  queue_isempty q = q.head % q.capacity == q.tail

  unfoldable pub queue_push : FifoQueue V → V → FifoQueue V
  queue_push q value = record q {
    queue = set q.queue q.tail value;
    tail = (q.tail + 1) % q.capacity;
  }

  -- the value, and the queue after it is taken; `default` stands for a read out of bounds
  unfoldable pub queue_pop : V → FifoQueue V → V × FifoQueue V
  queue_pop default q =
      let head = q.head % q.capacity in (get_or q.queue head default, record q { head = head + 1 })
