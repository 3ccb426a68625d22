-- ===== src/Checks/Joining.antt =====
-- Two processes that join the system one after the other, over a kernel with one file.
use com_ipc.Common.{true, ℕ, ◌≡◌, refl, ap, List, Option, some, none, ok}
use com_ipc.Types.{new_topic}
use com_ipc.Posix.{Posix, Opened, opened, refused, eexist, manager_shm}
use com_ipc.Pool.{init}
use com_ipc.Manager.{SystemManagerShm, new_manager}
use com_ipc.Startup.{Stores, Mapping, mgr_name, system_manager}
use com_ipc.Startup.Joining.{KeepsFile, found_or, system_manager_joins}
use com_ipc.Checks.Calls.{free_channel}

abbrev create_new : List ℕ → Option SystemManagerShm → Opened × Option SystemManagerShm
create_new name none = (opened 3, some new_manager)
create_new name (some m) = (refused eexist, some m)

abbrev open_old : List ℕ → Option SystemManagerShm → Opened × Option SystemManagerShm
open_old name none = (refused 2, none)
open_old name (some m) = (opened 3, some m)

abbrev one_file : Posix
one_file = record {
  Os = Option SystemManagerShm;
  shm_open_new = create_new;
  shm_open = open_old;
  shm_unlink = λ name os. none;
  ftruncate = λ fd kind os. (true, os);
  mmap = λ fd kind os. (some 4096, os);
  munmap = λ address kind os. os;
  close = λ fd os. os;
  mutex_lock = λ address os. (0, os);
  mutex_unlock = λ address os. os;
  load_topic = λ address os. new_topic;
  store_topic = λ address t os. os;
  load_service = λ address os. free_channel;
  store_service = λ address s os. os;
}

abbrev stores : Stores one_file
stores = record {
  load_manager = λ address os. found_or new_manager os;
  store_manager = λ address m os. some m;
  load_pool = λ address os. init (λ a. 0);
  store_pool = λ address p os. os;
}

open_new_absent :
    (os : Option SystemManagerShm)
    → os ≡ none
    → (fd : ℕ) × (os' : Option SystemManagerShm) × (create_new mgr_name os ≡ (opened fd, os'))
      × (os' ≡ some new_manager)
open_new_absent none e = (3, some new_manager, refl, refl)
open_new_absent (some m) e = cc

open_new_present :
    (os : Option SystemManagerShm) (x : SystemManagerShm)
    → os ≡ some x
    → (os' : Option SystemManagerShm) × (create_new mgr_name os ≡ (refused eexist, os'))
      × (os' ≡ some x)
open_new_present none x e = cc
open_new_present (some m) x e = (some m, refl, e)

open_present :
    (os : Option SystemManagerShm) (x : SystemManagerShm)
    → os ≡ some x
    → (fd : ℕ) × (os' : Option SystemManagerShm) × (open_old mgr_name os ≡ (opened fd, os'))
      × (os' ≡ some x)
open_present none x e = cc
open_present (some m) x e = (3, some m, refl, e)

keeps : KeepsFile one_file manager_shm mgr_name stores.load_manager stores.store_manager new_manager
keeps = record {
  content = λ os. os;
  open_new_absent = open_new_absent;
  open_new_present = open_new_present;
  open_present = open_present;
  keeps_ftruncate = λ fd os. refl;
  mmap_present = λ fd os x e. (4096, os, refl, e, ap (found_or new_manager) e, λ y. refl);
}

system_manager_joins_example :
    (it : Mapping) × (os : Option SystemManagerShm) × (system_manager one_file stores none
      ≡ (ok it, os))
    × (keeps.content os ≡ some (found_or new_manager (keeps.content none)))
system_manager_joins_example = system_manager_joins one_file stores keeps none
