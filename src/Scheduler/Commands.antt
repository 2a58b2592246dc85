-- ===== src/Scheduler/Commands.antt =====
-- What the commands on nodes of src/scheduler.c do at a node that is allocated.
pub use thread_management_librar.Base.{not_null}
use thread_management_librar.Base.{◌≡◌, ◌≢◌, none, some}
use thread_management_librar.Scheduler.Store.{
  Ptr, null, TaskNode, Store, write, load, set_next, free, ◌>>=◌,
}

module _ (s : Store) (p : Ptr) {n : TaskNode} (ne : p ≢ null) (at : s.node p ≡ some n) where
  pub load-some : load p s ≡ some (n, s)
  unfolding load
  load-some = rw (not_null p ne, at)

  pub free-some : free p s ≡ some (tt, record s { node = write s.node p none })
  unfolding free
  free-some = rw (load-some, ◌>>=◌)

  pub set_next-some :
      (q : Ptr)
      → set_next p q s
        ≡ some (tt, record s { node = write s.node p (some (record n { next = q })) })
  unfolding set_next
  set_next-some q = rw (load-some, ◌>>=◌)
