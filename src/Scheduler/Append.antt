-- ===== src/Scheduler/Append.antt =====
-- The append at the tail of the queue, in `task_queue_push` of src/scheduler.c.
use thread_management_librar.Base.{
  suc, ◌<◌, ◌≡◌, ◌≢◌, refl, false, some, [], ◌∷◌, ◌++◌, arith, length, length-append, size_mod,
  inc_size, if-false, sym,
}
use mathlib.Core.Path.{subst}
use thread_management_librar.Scheduler.Store.{Ptr, null, Task, Store, ◌>>=◌, write}
use thread_management_librar.Scheduler.Commands.{set_next-some, not_null}
use thread_management_librar.Scheduler.Queue.{append_node}
use thread_management_librar.Scheduler.Chain.{
  Cells, has, Chain, IsQueue, last-append, last-ne-null, write_other, ne-last, Chain-link,
}

-- `append_node` puts the node `p` behind the chain `cs`, and changes nothing else.
pub record Appended (s : Store) (cs : Cells) (p : Ptr) (t : Task) (s' : Store) : Type 0 where
  pub valid : IsQueue s' (cs ++ (p, t) ∷ [])
  pub signals : s'.signals ≡ s.signals
  pub capacity : s'.queue.capacity ≡ s.queue.capacity
  pub shutdown : s'.queue.shutdown ≡ s.queue.shutdown
  pub untouched : (a : Ptr) → has a cs ≡ false → s'.node a ≡ s.node a

pub append_node_lem :
    (s : Store) (cs : Cells) (p : Ptr) (t : Task)
    → IsQueue s cs
    → p ≢ null
    → s.node p ≡ some (record { task = t; next = null })
    → has p cs ≡ false
    → suc (length cs) < size_mod
    → (s' : Store) × (append_node p s ≡ some (tt, s')) × Appended s cs p t s'
unfolding append_node
append_node_lem s [] p t q ne at out room = (
  record s { queue = record s.queue { head = p; tail = p; count = inc_size s.queue.count } },
  rw q.tail,
  record {
    valid = record {
      chain = (ne, at, refl, tt);
      head = refl;
      tail = refl;
      counted = rw q.counted;
      fits = room;
    };
    signals = refl;
    capacity = refl;
    shutdown = refl;
    untouched = λ a o. refl;
  },
)
append_node_lem s (c ∷ cs) p t q ne at out room =
    let (u, found, linked) = Chain-link s.node c cs p t q.chain ne out at in
    let live : s.queue.tail ≢ null = rw q.tail (last-ne-null s.node c cs q.chain) in
    let end : s.node s.queue.tail ≡ some (record { task = u; next = null }) = rw q.tail found in
    (
      record s {
        node = write s.node s.queue.tail (some (record { task = u; next = p }));
        queue = record s.queue { tail = p; count = inc_size s.queue.count };
      },
      rw (if-false _ _ _ (not_null _ live), set_next-some s _ live end p, ◌>>=◌),
      record {
        valid = record {
          chain =
              subst
                (λ (e : Ptr).
                  Chain (write s.node e (some (record { task = u; next = p })))
                    (c ∷ cs ++ (p, t) ∷ []))
                (sym q.tail) linked;
          head = q.head;
          tail = sym (last-append (c ∷ cs) p t);
          counted = omega (arith, q.counted, length-append cs ((p, t) ∷ []));
          fits = omega (arith, length-append cs ((p, t) ∷ []));
        };
        signals = refl;
        capacity = refl;
        shutdown = refl;
        untouched = λ a o. write_other s.node a _ _ (rw q.tail (ne-last c cs a o));
      },
    )
