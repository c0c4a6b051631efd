-- ===== src/Queues/Moves.antt =====
-- The moves between the lists that keep the invariant.
use gpintosy.Prelude.{◌+◌, ◌≤◌, ◌≡◌, ◌≢◌, [], List, arith, ◌==◌, if◌then◌else◌}
use gpintosy.KernelList.Count.{count}
use gpintosy.Kernel.{Ptr, Status, running, ready, blocked}
use gpintosy.Queues.Defs.{View, IsQueued, IsLeaving}

-- `l` is `k` with one more `t`.
abbrev pub IsPut : Ptr → List Ptr → List Ptr → Type 0
IsPut t k l = (u : Ptr) → count u l ≡ (if t == u then 1 else 0) + count u k

-- `w` is `v` with the state of `t` set, and the same idle thread.
pub record Turns (v w : View) (t : Ptr) (s : Status) : Type 0 where
  pub status : (u : Ptr) → w.status u ≡ (if u == t then s else v.status u)
  pub idle : w.idle ≡ v.idle
  pub idle_frames : w.idle_frames ≡ []

-- No list of waiting threads grows.
pub record Shrinks (v w : View) : Type 0 where
  pub waiters : (s u : Ptr) → count u (w.waiters s) ≤ count u (v.waiters s)
  pub sleepers : (u : Ptr) → count u w.sleepers ≤ count u v.sleepers

module _ {v w : View} (q : IsQueued v) where
  module _ {t : Ptr} (turns : Turns v w t ready) (shrinks : Shrinks v w) where
    -- A blocked thread that leaves its list enters the run queue.
    pub wake-IsQueued :
        w.current ≡ v.current
        → v.status t ≡ blocked
        → t ≢ v.idle
        → ((s : Ptr) → count t (w.waiters s) ≡ 0)
        → count t w.sleepers ≡ 0
        → IsPut t v.ready_list w.ready_list
        → IsQueued w
    wake-IsQueued same b ni nw ns put = record {
      consistent = record {
        null_dead = ground (arith, q.null_dead, turns.status 0);
        idle_exists = ground (arith, turns.idle, q.idle_exists);
        idle_free = turns.idle_frames;
        ready = λ u. ground (arith, put u, q.ready u, turns.status u, turns.idle);
        waiting = λ s u.
            ground (arith, nw s, q.waiting s u, turns.status u, turns.idle, shrinks.waiters s u);
        one_wait = λ s s' u h h'.
            q.one_wait s s' u (omega (arith, shrinks.waiters s u))
              (omega (arith, shrinks.waiters s' u));
        sleeping =
            λ u. ground (arith, q.sleeping u, turns.status u, turns.idle, shrinks.sleepers u);
        apart = λ s u h.
            omega (arith, q.apart s u (omega (arith, shrinks.sleepers u)), shrinks.waiters s u);
      };
      runs = ground (arith, q.runs, turns.status w.current, same);
      alone = λ u h. ground (arith, q.alone u, turns.status u, same);
    }

  -- The current thread yields: it enters the run queue, unless it is the idle thread.
  pub yield-IsLeaving :
      Turns v w v.current ready
      → Shrinks v w
      → ((u : Ptr)
          → count u w.ready_list
            ≡ (if v.current == v.idle then 0 else if v.current == u then 1 else 0)
              + count u v.ready_list)
      → IsLeaving w
  yield-IsLeaving turns shrinks put = record {
    consistent = record {
      null_dead = ground (arith, q.null_dead, turns.status 0, q.runs);
      idle_exists = ground (arith, turns.idle, q.idle_exists);
      idle_free = turns.idle_frames;
      ready = λ u. ground (arith, put u, q.ready u, turns.status u, turns.idle, q.runs);
      waiting = λ s u.
          ground (arith, q.waiting s u, turns.status u, turns.idle, shrinks.waiters s u, q.runs);
      one_wait = λ s s' u h h'.
          q.one_wait s s' u (omega (arith, shrinks.waiters s u))
            (omega (arith, shrinks.waiters s' u));
      sleeping =
          λ u. ground (arith, q.sleeping u, turns.status u, turns.idle, shrinks.sleepers u, q.runs);
      apart = λ s u h.
          omega (arith, q.apart s u (omega (arith, shrinks.sleepers u)), shrinks.waiters s u);
    };
    stopped = λ u. ground (arith, q.alone u, turns.status u);
  }

  -- The states and the queues are the same.
  pub same-IsQueued :
      ((u : Ptr) → w.status u ≡ v.status u)
      → w.current ≡ v.current
      → w.idle ≡ v.idle
      → w.idle_frames ≡ []
      → w.ready_list ≡ v.ready_list
      → Shrinks v w
      → IsQueued w
  same-IsQueued status cur idle frames same shrinks = record {
    consistent = record {
      null_dead = ground (arith, q.null_dead, status 0);
      idle_exists = ground (arith, idle, q.idle_exists);
      idle_free = frames;
      ready = λ u. ground (arith, same, q.ready u, status u, idle);
      waiting = λ s u. ground (arith, q.waiting s u, status u, idle, shrinks.waiters s u);
      one_wait = λ s s' u h h'.
          q.one_wait s s' u (omega (arith, shrinks.waiters s u))
            (omega (arith, shrinks.waiters s' u));
      sleeping = λ u. ground (arith, q.sleeping u, status u, idle, shrinks.sleepers u);
      apart = λ s u h.
          omega (arith, q.apart s u (omega (arith, shrinks.sleepers u)), shrinks.waiters s u);
    };
    runs = ground (arith, q.runs, status w.current, cur);
    alone = λ u h. ground (arith, q.alone u, status u, cur);
  }

  -- The current thread stops, on no list.
  pub halt-IsLeaving :
      (s : Status)
      → s ≢ running
      → s ≢ ready
      → Turns v w v.current s
      → Shrinks v w
      → w.ready_list ≡ v.ready_list
      → IsLeaving w
  halt-IsLeaving s nr nd turns shrinks same = record {
    consistent = record {
      null_dead = ground (arith, q.null_dead, turns.status 0, q.runs);
      idle_exists = ground (arith, turns.idle, q.idle_exists);
      idle_free = turns.idle_frames;
      ready = λ u. ground (arith, same, q.ready u, turns.status u, turns.idle, q.runs);
      waiting = λ s u.
          ground (arith, q.waiting s u, turns.status u, turns.idle, shrinks.waiters s u, q.runs);
      one_wait = λ s s' u h h'.
          q.one_wait s s' u (omega (arith, shrinks.waiters s u))
            (omega (arith, shrinks.waiters s' u));
      sleeping =
          λ u. ground (arith, q.sleeping u, turns.status u, turns.idle, shrinks.sleepers u, q.runs);
      apart = λ s u h.
          omega (arith, q.apart s u (omega (arith, shrinks.sleepers u)), shrinks.waiters s u);
    };
    stopped = λ u. ground (arith, q.alone u, turns.status u);
  }

  -- The current thread blocks on the list of the semaphore `p`.
  pub wait-IsLeaving :
      (p : Ptr)
      → v.current ≢ v.idle
      → Turns v w v.current blocked
      → w.ready_list ≡ v.ready_list
      → w.sleepers ≡ v.sleepers
      → ((s u : Ptr)
          → count u (w.waiters s)
            ≡ (if s == p then if v.current == u then 1 else 0 else 0) + count u (v.waiters s))
      → IsLeaving w
  wait-IsLeaving p ni turns same_ready same_sleep put = record {
    consistent = record {
      null_dead = ground (arith, q.null_dead, turns.status 0, q.runs);
      idle_exists = ground (arith, turns.idle, q.idle_exists);
      idle_free = turns.idle_frames;
      ready = λ u. ground (arith, same_ready, q.ready u, turns.status u, turns.idle, q.runs);
      waiting = λ s u. ground (arith, put s u, q.waiting s u, turns.status u, turns.idle, q.runs);
      one_wait = λ s s' u h h'. ground (
        arith,
        put s u,
        put s' u,
        q.one_wait s s' u,
        q.waiting s v.current,
        q.waiting s' v.current,
        q.runs,
      );
      sleeping = λ u. ground (arith, same_sleep, q.sleeping u, turns.status u, turns.idle, q.runs);
      apart =
          λ s u h. ground (arith, same_sleep, put s u, q.apart s u, q.sleeping v.current, q.runs);
    };
    stopped = λ u. ground (arith, q.alone u, turns.status u);
  }

  -- The current thread blocks on the sleep list.
  pub sleep-IsLeaving :
      v.current ≢ v.idle
      → Turns v w v.current blocked
      → w.ready_list ≡ v.ready_list
      → ((s u : Ptr) → count u (w.waiters s) ≤ count u (v.waiters s))
      → IsPut v.current v.sleepers w.sleepers
      → IsLeaving w
  sleep-IsLeaving ni turns same_ready shrinks put = record {
    consistent = record {
      null_dead = ground (arith, q.null_dead, turns.status 0, q.runs);
      idle_exists = ground (arith, turns.idle, q.idle_exists);
      idle_free = turns.idle_frames;
      ready = λ u. ground (arith, same_ready, q.ready u, turns.status u, turns.idle, q.runs);
      waiting =
          λ s u. ground (arith, q.waiting s u, turns.status u, turns.idle, shrinks s u, q.runs);
      one_wait = λ s s' u h h'.
          q.one_wait s s' u (omega (arith, shrinks s u)) (omega (arith, shrinks s' u));
      sleeping = λ u. ground (arith, put u, q.sleeping u, turns.status u, turns.idle, q.runs);
      apart =
          λ s u h. ground (arith, put u, shrinks s u, q.apart s u, q.waiting s v.current, q.runs);
    };
    stopped = λ u. ground (arith, q.alone u, turns.status u);
  }
