-- ===== src/Env/Files.antt =====
-- The state of `ZNSEnv` (env/env_zns.h): the files by name, on a heap of file objects, so that a name
-- and an open file can point to one object.
use x_ztl.Common.{
  ℕ, Bool, true, false, ltb, ◌==◌, if◌then◌else◌, List, [], ◌∷◌, ◌++◌, Option, none, some, ◌>>=◌,
  get_elem?, set, length,
}
use x_ztl.Env.{Name, ZnsFile}

-- `std::string`'s `==` and `<`.
unfoldable pub name_eq : Name → Name → Bool
name_eq [] [] = true
name_eq [] (y ∷ ys) = false
name_eq (x ∷ xs) [] = false
name_eq (x ∷ xs) (y ∷ ys) = elim (x == y) [ true ↦ name_eq xs ys | false ↦ false ]

unfoldable pub name_lt : Name → Name → Bool
name_lt xs [] = false
name_lt [] (y ∷ ys) = true
name_lt (x ∷ xs) (y ∷ ys) = elim (x == y) [ true ↦ name_lt xs ys | false ↦ ltb x y ]

-- `std::map<std::string, ZNSFile*>` in the order of its names; `none` is a null pointer, which
-- `files[name]` puts there when it does not find the name.
abbrev pub FileMap : Type 0
FileMap = List (Name × Option ℕ)

-- `files.find`
unfoldable pub find : FileMap → Name → Option (Option ℕ)
find [] k = none
find ((n, v) ∷ fs) k = elim (name_eq n k) [ true ↦ some v | false ↦ find fs k ]

-- `files[k] = v`
unfoldable pub insert : FileMap → Name → Option ℕ → FileMap
insert [] k v = (k, v) ∷ []
insert ((n, u) ∷ fs) k v = elim (name_eq n k) [
  | true ↦ (k, v) ∷ fs
  | false ↦ elim (name_lt k n) [ true ↦ (k, v) ∷ (n, u) ∷ fs | false ↦ (n, u) ∷ insert fs k v ]
]

-- `files.erase(k)`
unfoldable pub erase : FileMap → Name → FileMap
erase [] k = []
erase ((n, u) ∷ fs) k = elim (name_eq n k) [ true ↦ erase fs k | false ↦ (n, u) ∷ erase fs k ]

-- `files[k]` where it is read: the pointer, and the map with the null pointer that the look-up may add.
unfoldable pub look_up : FileMap → Name → Option ℕ × FileMap
unfolding find insert
look_up fs k = elim (find fs k) [ none ↦ (none, insert fs k none) | some v ↦ (v, fs) ]

-- `std::map<int, std::vector<std::string>> nid_file_map`, in no order: `emplace_back` and `find`.
unfoldable pub add_name : List (ℕ × List Name) → ℕ → Name → List (ℕ × List Name)
add_name [] nid name = (nid, name ∷ []) ∷ []
add_name ((n, names) ∷ ns) nid name =
    let rest = add_name ns nid name in
    if n == nid then (n, names ++ (name ∷ [])) ∷ ns else (n, names) ∷ rest

unfoldable pub names_of : List (ℕ × List Name) → ℕ → List Name
names_of [] nid = []
names_of ((n, names) ∷ ns) nid = let rest = names_of ns nid in if n == nid then names else rest

-- The state; a place of the heap is `none` when its file is deleted.
pub record EnvState (W : Type 0) : Type 0 where
  pub heap : List (Option ZnsFile)
  pub files : FileMap
  pub nid_file_map : List (ℕ × List Name)
  pub sequence : ℕ
  pub uuididx : ℕ
  pub dev : W

-- The object that a pointer points to; `none` is a use after it is deleted.
unfoldable pub deref : List (Option ZnsFile) → ℕ → Option ZnsFile
deref heap p = do o ← get_elem? heap p; o

-- `new`: the pointer is the next place of the heap.
unfoldable pub allocate : List (Option ZnsFile) → ZnsFile → ℕ × List (Option ZnsFile)
allocate heap f = (length heap, heap ++ (some f ∷ []))

-- `delete`, which may be of a null pointer; `none` is a second one of the same object.
unfoldable pub delete : List (Option ZnsFile) → Option ℕ → Option (List (Option ZnsFile))
unfolding deref
delete heap none = some heap
delete heap (some p) = do f ← deref heap p; some (set heap p none)
