-- ===== src/Protocol/Late.antt =====
-- A thread that starts late: the semaphore of `TraceThreadStart` of src/hawkset.cpp is set before the
-- clock of the creation is read.
use hawk_set.Protocol.{absent, born, announced, running, calling, waiting, put_pc, System}
use hawk_set.Map
use hawk_set.Races.{tls_max_size}
use hawk_set.Threads.Order.{now, pushed}
use hawk_set.Tool.{ThreadData, Tool, put_thread}
use hawk_set.VectorClock.{VectorClock, update_tid}
use hawk_set.Prelude.{ℕ, ◌<◌, ◌≡◌, ◌≢◌, true, false, none, some, if◌then◌else◌, ◌==◌}

module _ (memory : ℕ → ℕ) (s : System) (p pid pid2 c : ℕ) where
  -- After the creation, and after the clock of the next one is in place.
  abbrev entered : Tool → ℕ → Tool
  entered t address = record t {
    creator_thread_id = some p;
    creator_thread_clock = update_tid (now t p) p;
    analysis_data_tls = pushed t.analysis_data_tls p (update_tid (update_tid (now t p) p) p);
    created_pthread_id_address = address;
  }

  abbrev finished : Tool → Tool
  finished t = record t {
    created_thread_id = c;
    pthread_id_to_tid = Map.assign (memory t.created_pthread_id_address) c t.pthread_id_to_tid;
  }

  abbrev used : Tool → ThreadData
  used t = record (t.analysis_data_tls c) { used = true }

  abbrev started : Tool → Tool
  started t = record t {
    analysis_data_tls =
        pushed (put_thread t.analysis_data_tls c (used t)) c
          (update_tid (update_tid t.creator_thread_clock c) c);
  }

  module _ (new : c ≢ p) (runs : s.pc p ≡ running) (free : s.owner ≡ none)
      (unborn : s.pc c ≡ absent) (small : c < tls_max_size) (child : c ≢ 0) where
    -- The places of the threads, step by step.
    abbrev after_enter : System
    after_enter = record s {
      tool = entered s.tool pid;
      owner = some p;
      pc = put_pc s.pc p (calling pid);
    }

    abbrev after_spawn : System
    after_spawn = record after_enter {
      pc = put_pc (put_pc after_enter.pc p (waiting pid c)) c born;
    }

    abbrev after_announce : System
    after_announce = record after_spawn {
      tool = record after_spawn.tool { created_thread_id = c };
      semaphore = if c == 0 then after_spawn.semaphore else true;
      pc = put_pc after_spawn.pc c announced;
    }

    abbrev after_finish : System
    after_finish = record after_announce {
      tool = finished after_spawn.tool;
      owner = none;
      semaphore = false;
      pc = put_pc after_announce.pc p running;
    }

    abbrev after_next : System
    after_next = record after_finish {
      tool = entered after_finish.tool pid2;
      owner = some p;
      pc = put_pc after_finish.pc p (calling pid2);
    }

    abbrev after_init : System
    after_init = record after_next {
      tool = started after_next.tool;
      pc = put_pc after_next.pc c running;
    }
