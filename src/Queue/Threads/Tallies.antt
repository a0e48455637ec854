-- ===== src/Queue/Threads/Tallies.antt =====
-- The numbers of the invariant of the two threads of `SpscQueue` under each step that changes them.
use low_latency_prediction_m.Base.{ℕ, suc, ◌+◌, ◌-◌, ◌≤◌, ◌≢◌, refl, arith}
use low_latency_prediction_m.Base.Words.{add_size, sub_size}
use low_latency_prediction_m.Queue.Invariant.{IsSize, IsSize-le}
use low_latency_prediction_m.Queue.Threads.Invariant.{Tally}

module _ {size : ℕ} (z : IsSize size) where
  pub start-Tally : Tally size 0 0 0 0 0 0 0 0
  start-Tally = record {
    published = 0;
    behind = 0;
    unseen = 0;
    write_at = refl;
    read_at = refl;
    seen_at = refl;
    counted = refl;
    room = omega arith;
    ahead = omega arith;
    seen_write_small = omega arith;
    seen_read_small = omega arith;
  }

  module _ {items made gone found write read seen_write seen_read : ℕ} where
    pub Tally-load_read :
        Tally size items made gone found write read seen_write seen_read
        → (later : ℕ) → later ≤ sub_size read seen_read
        → Tally size items made gone found write read seen_write (add_size seen_read later)
    Tally-load_read h later le = record {
      published = h.published;
      behind = h.behind - later;
      unseen = h.unseen;
      write_at = h.write_at;
      read_at = omega (arith, IsSize-le z, h.read_at, h.room, h.seen_read_small);
      seen_at = h.seen_at;
      counted = h.counted;
      room = omega (arith, IsSize-le z, h.read_at, h.room, h.seen_read_small);
      ahead = h.ahead;
      seen_write_small = h.seen_write_small;
      seen_read_small = omega arith;
    }

    pub Tally-load_write :
        Tally size items made gone found write read seen_write seen_read
        → (later : ℕ) → later ≤ sub_size write seen_write
        → Tally size items made gone found write read (add_size seen_write later) seen_read
    Tally-load_write h later le = record {
      published = h.published;
      behind = h.behind;
      unseen = h.unseen - later;
      write_at = h.write_at;
      read_at = h.read_at;
      seen_at = omega (arith, IsSize-le z, h.seen_at, h.room, h.ahead, h.seen_write_small);
      counted = h.counted;
      room = h.room;
      ahead = omega (arith, IsSize-le z, h.seen_at, h.room, h.ahead, h.seen_write_small);
      seen_write_small = omega arith;
      seen_read_small = h.seen_read_small;
    }

  module _ {items gone found write read seen_write seen_read : ℕ} where
    -- There is room for one more item if the queue did not look full.
    pub Tally-construct :
        Tally size items 0 gone found write read seen_write seen_read
        → sub_size write seen_read ≢ size
        → Tally size (items + 1) 1 gone found write read seen_write seen_read
    Tally-construct h differ = record {
      published = h.published;
      behind = h.behind;
      unseen = h.unseen;
      write_at = h.write_at;
      read_at = h.read_at;
      seen_at = h.seen_at;
      counted = omega (arith, h.counted);
      room = omega (arith, IsSize-le z, h.room, h.write_at, h.read_at, h.seen_read_small);
      ahead = h.ahead;
      seen_write_small = h.seen_write_small;
      seen_read_small = h.seen_read_small;
    }

    pub Tally-publish :
        Tally size items 1 gone found write read seen_write seen_read
        → Tally size items 0 gone found (add_size write 1) read seen_write seen_read
    Tally-publish h = record {
      published = suc h.published;
      behind = h.behind;
      unseen = suc h.unseen;
      write_at = omega (arith, h.write_at);
      read_at = h.read_at;
      seen_at = omega (arith, h.seen_at);
      counted = omega (arith, h.counted);
      room = omega (arith, h.room);
      ahead = omega (arith, h.ahead);
      seen_write_small = h.seen_write_small;
      seen_read_small = h.seen_read_small;
    }

  module _ {items made write read seen_write seen_read : ℕ} where
    -- There is an item that the consumer has seen published if the queue did not look empty.
    pub Tally-move :
        Tally size items made 0 0 write read seen_write seen_read
        → read ≢ seen_write
        → Tally size items made 0 1 write read seen_write seen_read
    Tally-move h differ = record {
      published = h.published;
      behind = h.behind;
      unseen = h.unseen;
      write_at = h.write_at;
      read_at = h.read_at;
      seen_at = h.seen_at;
      counted = h.counted;
      room = h.room;
      ahead = omega (
        arith,
        IsSize-le z,
        h.ahead,
        h.room,
        h.write_at,
        h.seen_at,
        h.read_at,
        h.seen_write_small,
      );
      seen_write_small = h.seen_write_small;
      seen_read_small = h.seen_read_small;
    }

    pub Tally-destroy :
        Tally size (suc items) made 0 1 write read seen_write seen_read
        → Tally size items made 1 1 write read seen_write seen_read
    Tally-destroy h = record {
      published = h.published;
      behind = h.behind;
      unseen = h.unseen;
      write_at = h.write_at;
      read_at = h.read_at;
      seen_at = h.seen_at;
      counted = omega (arith, h.counted);
      room = h.room;
      ahead = h.ahead;
      seen_write_small = h.seen_write_small;
      seen_read_small = h.seen_read_small;
    }

    pub Tally-release :
        Tally size items made 1 1 write read seen_write seen_read
        → Tally size items made 0 0 write (add_size read 1) seen_write seen_read
    Tally-release h = record {
      published = h.published - 1;
      behind = suc h.behind;
      unseen = h.unseen;
      write_at = omega (arith, h.write_at, h.ahead);
      read_at = omega (arith, h.read_at);
      seen_at = h.seen_at;
      counted = omega (arith, h.counted, h.ahead);
      room = omega (arith, h.room, h.ahead);
      ahead = omega (arith, h.ahead);
      seen_write_small = h.seen_write_small;
      seen_read_small = h.seen_read_small;
    }
