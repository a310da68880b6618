-- ===== src/Kademlia/MemStore/Refines.antt =====
-- The store in memory is a map from keys to values: every sequence of calls reads as on a function.
use mathlib.Core.Path.{fun_ext}
use supernode.Base.{
  ℕ, ◌≡◌, refl, ap, ◌∙◌, Option, none, some, List, [], ◌∷◌, Bytes, bytes_eq, if◌then◌else◌,
}
use supernode.Kademlia.Dict.{
  assign_key, lookup_key, IsMap, lookup_key-assign_key, assign_key-IsMap, lookup_key-delete_key,
  delete_key-IsMap,
}
use supernode.Kademlia.MemStore.{
  MemStore, store, retrieve, delete, delete_all, store_values, store_batch, found_or_not,
}

-- The calls that change the store, `store_at` with its time.
pub data Op : Type 0 where
  store_at : (now : ℕ) (key value : Bytes) → Op
  delete_at : (key : Bytes) → Op
  batch : (values : List Bytes) → Op
  clear : Op

pub step : Op → MemStore → MemStore
unfolding store delete store_batch delete_all
step (store_at now key value) s = store now s key value
step (delete_at key) s = delete s key
step (batch values) s = store_batch s values
step clear s = delete_all s

pub run : List Op → MemStore → MemStore
unfolding step
run [] s = s
run (op ∷ ops) s = run ops (step op s)

-- The map that the store stands for.
abbrev Contents : Type 0
Contents = Bytes → Option Bytes

abbrev pub write : Bytes → Option Bytes → Contents → Contents
write key value f other = if bytes_eq key other then value else f other

abbrev write_all : List Bytes → Contents → Contents
write_all [] f = f
write_all (value ∷ values) f = write_all values (write value (some value) f)

abbrev spec_step : Op → Contents → Contents
spec_step (store_at now key value) f = write key (some value) f
spec_step (delete_at key) f = write key none f
spec_step (batch values) f = write_all values f
spec_step clear f = λ key. none

abbrev pub spec_run : List Op → Contents → Contents
spec_run [] f = f
spec_run (op ∷ ops) f = spec_run ops (spec_step op f)

abbrev pub contents_of : List (Bytes × Bytes) → Contents
contents_of m key = lookup_key key m

store_values-contents :
    (values : List Bytes) (m : List (Bytes × Bytes))
    → contents_of (store_values values m) ≡ write_all values (contents_of m)
unfolding store_values
store_values-contents [] m = refl
store_values-contents (value ∷ values) m =
    store_values-contents values (assign_key value value m)
    ∙ ap (write_all values) (fun_ext λ other. lookup_key-assign_key value other value m)

store_values-IsMap :
    (values : List Bytes) (m : List (Bytes × Bytes)) → IsMap m → IsMap (store_values values m)
unfolding store_values
store_values-IsMap [] m h = h
store_values-IsMap (value ∷ values) m h =
    store_values-IsMap values (assign_key value value m) (assign_key-IsMap value value m h)

step-contents :
    (op : Op) (s : MemStore)
    → IsMap s.data'
    → IsMap (step op s).data' × (contents_of (step op s).data' ≡ spec_step op (contents_of s.data'))
unfolding step store delete store_batch delete_all lookup_key
step-contents (store_at now key value) s h = (
  assign_key-IsMap key value s.data' h,
  fun_ext λ other. lookup_key-assign_key key other value s.data',
)
step-contents (delete_at key) s h =
    (delete_key-IsMap key s.data' h, fun_ext λ other. lookup_key-delete_key key other s.data' h)
step-contents (batch values) s h =
    (store_values-IsMap values s.data' h, store_values-contents values s.data')
step-contents clear s h = (tt, refl)

-- After any sequence of `Store`, `Delete`, `StoreBatch` and `DeleteAll` on a store whose map has
-- distinct keys, the keys are distinct, and `Retrieve` gives what the same sequence of writes gives
-- on a function from keys to values: the value, or the error "not found" where there is none.
pub run-retrieve :
    (ops : List Op) (s : MemStore) (key : Bytes)
    → IsMap s.data'
    → IsMap (run ops s).data'
      × (retrieve (run ops s) key ≡ found_or_not (spec_run ops (contents_of s.data') key))
unfolding run retrieve
run-retrieve [] s key h = (h, refl)
run-retrieve (op ∷ ops) s key h =
    let (h', e) = step-contents op s h in
    let (h'', r) = run-retrieve ops (step op s) key h' in
    (h'', r ∙ ap (λ f. found_or_not (spec_run ops f key)) e)
