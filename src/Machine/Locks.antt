-- ===== src/Machine/Locks.antt =====
-- Acquiring a lock keeps the queues consistent, with the donation on the way.
use gpintosy.KernelList.{insert_ordered}
use gpintosy.Kernel.{Ptr, Kernel, set_thread, lock_taken, down_again, push_frame}
use gpintosy.Synch.{misread_compare}

-- Right before the donation of a thread that finds the lock held.
abbrev donor : Ptr → Kernel → Kernel
donor lock k =
    let k = set_thread k k.current (record (k.threads k.current) { waiting_on_lock = lock }) in
    let t = k.threads (k.holders lock) in
    let donors = insert_ordered (misread_compare k) t.donors_list k.current in
    set_thread k (k.holders lock) (record t { donors_list = donors })

-- The thread of a lock that waits is a donor, and goes on with its frames.
abbrev pushed : Ptr → Kernel → Kernel
pushed lock k = push_frame (push_frame k (lock_taken lock)) (down_again lock)
