-- ===== src/Patch/Cache/Places.antt =====
-- How a file gets its slot in `PatchCache::load` (PatchServer/PatchCache.cpp): it keeps the one it has,
-- takes one that nobody holds, or gets a new one.
use tars_framework.Base.{
  has, ℕ, true, false, ◌||◌, ◌≡◌, refl, sym, ap, ◌∙◌, Option, none, some, List, [], ◌∷◌, ◌++◌, inl,
  inr, String, str_eq, string_key, eq_iff, ◌==◌, ==_iff, length, get_elem?, arith, Bool-cases,
  Option-cases,
}
use tars_framework.Base.Map.{find, erase, insert, find-erase, find-insert}
use tars_framework.Patch.Cache.{
  FileLoad, n_load, loading, reload, loaded, MemState, PatchCache, is_settled, is_loading, is_free,
  find_free, without,
}
use tars_framework.Patch.Cache.Valid.{IsSound, IsValid, Placed}
use tars_framework.Patch.Cache.Outcome.{fresh, in_heap}

pub not_both : (x : FileLoad) → is_loading x ≡ true → is_settled x ≡ true → ⊥
not_both n_load p q = cc
not_both loading p q = cc
not_both reload p q = cc
not_both loaded p q = cc

has_own : (a b : ℕ) (vec : List ℕ) → has a vec ≡ true → has b vec ≡ ((b == a) || has b vec)
has_own a b vec h = elim (Bool-cases (b == a)) [
  | inl x ↦
      let same : b ≡ a = (==_iff b a).0 x in let it : has b vec ≡ true = rw same h in ground arith
  | inr x ↦ ground arith
]

-- What the slot of the file is after a load.
pub record Ready (mem_max : ℕ) (file : String) (m : MemState) : Type 0 where
  pub settled : is_settled m.mem_load ≡ true
  pub name : m.file_name ≡ file
  pub sound : IsSound mem_max m

module _ (c : PatchCache) (v : IsValid c) where
  -- Two names have different slots, if the slots can be loaded.
  other_slot :
      (file g : String) (a b : ℕ)
      → has a c.vec_mems ≡ true
      → (m : MemState) → get_elem? c.heap a ≡ some m
      → m.file_name ≡ file
      → str_eq file g ≡ false
      → find g c.map_files ≡ some b
      → (a == b) ≡ false
  other_slot file g a b h m e n apart f = elim (Bool-cases (a == b)) [
    | inr x ↦ x
    | inl x ↦
        let same : a ≡ b = (==_iff a b).0 x in
        let w = v.mapped g b f in
        let one : m ≡ w.state = cc (rw same at e, w.here) in
        elim w.kind [
          | inl k ↦
              let its : file ≡ g = sym n ∙ ap (λ s. s.file_name) one ∙ k.1 in
              absurd (cc ((eq_iff file g).1 its, apart))
          | inr k ↦ absurd (cc (rw (sym same) at k.0, h))
        ]
  ]

  -- The slot that the file has.
  pub own_slot :
      (file : String) (a : ℕ) (m : MemState)
      → find file c.map_files ≡ some a
      → get_elem? c.heap a ≡ some m
      → is_loading m.mem_load ≡ false
      → (has a c.vec_mems ≡ true) × (m.file_name ≡ file)
  own_slot file a m f e k =
      let w = v.mapped file a f in
      let one : m ≡ w.state = cc (e, w.here) in
      elim w.kind [
        | inl x ↦ (x.0, ap (λ s. s.file_name) one ∙ x.1)
        | inr x ↦ absurd (cc (rw (sym one) at x.1, k))
      ]

  pub Placed-here :
      (file : String) (a : ℕ) (m new : MemState) (heap : List MemState)
      → find file c.map_files ≡ some a
      → get_elem? c.heap a ≡ some m
      → is_loading m.mem_load ≡ false
      → get_elem? heap a ≡ some new
      → ((b : ℕ) → (a == b) ≡ false → get_elem? heap b ≡ get_elem? c.heap b)
      → Ready c.mem_max file new
      → Placed c file a new (record c { heap = heap })
  Placed-here file a m new heap f e k here others r =
      let own = own_slot file a m f e k in
      record {
        same_max = refl;
        others = others;
        slots = λ b. has_own a b c.vec_mems own.0;
        own = f;
        old = λ g b apart h. (h, other_slot file g a b own.0 m e own.1 apart h);
        keep = λ g b apart ne h. h;
        alone = λ b h. (let same : a ≡ b = cc (f, h) in (==_iff a b).1 same);
        here = here;
        settled = r.settled;
        name = r.name;
        sound = r.sound;
      }

  pub Placed-taken :
      (file : String) (a : ℕ) (m new : MemState) (heap : List MemState)
      → find file c.map_files ≡ none
      → has a c.vec_mems ≡ true
      → get_elem? c.heap a ≡ some m
      → get_elem? heap a ≡ some new
      → ((b : ℕ) → (a == b) ≡ false → get_elem? heap b ≡ get_elem? c.heap b)
      → Ready c.mem_max file new
      → Placed c file a new
          (record c { heap = heap; map_files = insert file a (erase m.file_name c.map_files) })
  Placed-taken file a m new heap f h e here others r = record {
    same_max = refl;
    others = others;
    slots = λ b. has_own a b c.vec_mems h;
    own = ground (arith, find-insert file file a (erase m.file_name c.map_files), eq_iff file file);
    old = λ g b apart k.
        let erased : find g (erase m.file_name c.map_files) ≡ some b =
          ground (arith, find-insert file g a (erase m.file_name c.map_files)) in
        let other : str_eq m.file_name g ≡ false =
          ground (arith, find-erase m.file_name g c.map_files) in
        let was : find g c.map_files ≡ some b =
          ground (arith, find-erase m.file_name g c.map_files) in
        (was, other_slot m.file_name g a b h m e refl other was);
    keep = λ g b apart ne k.
        (let other : str_eq m.file_name g ≡ false = elim (Bool-cases (str_eq m.file_name g)) [
          | inr x ↦ x
          | inl x ↦
              let same : m.file_name ≡ g = (eq_iff m.file_name g).0 x in
              let l = v.live a h in
              let one : m ≡ l.state = cc (e, l.here) in
              let at : a ≡ b = cc (rw (sym one, same) at l.named, k) in
              absurd (cc ((==_iff a b).1 at, ne))
        ] in
          find-insert file g a (erase m.file_name c.map_files)
          ∙ rw apart (find-erase m.file_name g c.map_files ∙ rw other k));
    alone = λ b k. absurd (cc (f, k));
    here = here;
    settled = r.settled;
    name = r.name;
    sound = r.sound;
  }

without-append_last : (n : ℕ) (vec : List ℕ) → has n vec ≡ false → without n (vec ++ (n ∷ [])) ≡ vec
unfolding without
without-append_last n [] h = ground arith
without-append_last n (a ∷ vec) h = ground (arith, without-append_last n vec)

has-append_last : (b n : ℕ) (vec : List ℕ) → has b (vec ++ (n ∷ [])) ≡ ((b == n) || has b vec)
has-append_last b n [] = ground arith
has-append_last b n (a ∷ vec) = ground (arith, has-append_last b n vec)

module _ (c : PatchCache) (v : IsValid c) where
  pub without_new : without (length c.heap) (c.vec_mems ++ (length c.heap ∷ [])) ≡ c.vec_mems
  without_new = without-append_last (length c.heap) c.vec_mems (fresh c "" v)

  pub Placed-grown :
      (file : String) (new : MemState) (heap : List MemState)
      → find file c.map_files ≡ none
      → get_elem? heap (length c.heap) ≡ some new
      → ((b : ℕ) → (length c.heap == b) ≡ false → get_elem? heap b ≡ get_elem? c.heap b)
      → Ready c.mem_max file new
      → Placed c file (length c.heap) new (record c {
        heap = heap;
        vec_mems = c.vec_mems ++ (length c.heap ∷ []);
        map_files = insert file (length c.heap) c.map_files;
      })
  Placed-grown file new heap f here others r = record {
    same_max = refl;
    others = others;
    slots = λ b. has-append_last b (length c.heap) c.vec_mems;
    own = ground (arith, find-insert file file (length c.heap) c.map_files, eq_iff file file);
    old = λ g b apart k.
        let was : find g c.map_files ≡ some b =
          ground (arith, find-insert file g (length c.heap) c.map_files) in
        let w = v.mapped g b was in (was, in_heap c file v b w.state w.here);
    keep = λ g b apart ne k. find-insert file g (length c.heap) c.map_files ∙ rw apart k;
    alone = λ b k. absurd (cc (f, k));
    here = here;
    settled = r.settled;
    name = r.name;
    sound = r.sound;
  }

is_free_lem :
    (now expire_time : ℕ) (m : MemState)
    → is_free now expire_time m ≡ true
    → (is_settled m.mem_load ≡ true) × (m.mem_count ≡ 0)
unfolding is_free
is_free_lem now expire_time m k = ground arith

-- What `__getMem` chooses is a slot of the list that nobody holds.
pub find_free_lem :
    (now expire_time : ℕ) (heap : List MemState) (vec : List ℕ) (a : ℕ) (m : MemState)
    → find_free now expire_time heap vec ≡ some (a, m)
    → (has a vec ≡ true)
      × (get_elem? heap a ≡ some m)
      × (is_settled m.mem_load ≡ true)
      × (m.mem_count ≡ 0)
unfolding find_free is_free
find_free_lem now expire_time heap [] a m e = absurd cc
find_free_lem now expire_time heap (b ∷ bs) a m e = elim (Option-cases (get_elem? heap b)) [
  | inl h ↦
      let later = find_free_lem now expire_time heap bs a m (rw (find_free, h) at e) in
      (ground (arith, later.0), later.1, later.2, later.3)
  | inr (n, h) ↦ elim (Bool-cases (is_free now expire_time n)) [
    | inl k ↦
        let q : ◌≡◌ {A = Option (ℕ × MemState)} (some (b, n)) (some (a, m)) =
          rw (find_free, h, k) at e in
        let at : b ≡ a = cc q in
        let one : n ≡ m = cc q in
        let free = is_free_lem now expire_time n k in
        (ground (arith, at), rw (sym at, sym one) h, rw (sym one) free.0, rw (sym one) free.1)
    | inr k ↦
        let later = find_free_lem now expire_time heap bs a m (rw (find_free, h, k) at e) in
        (ground (arith, later.0), later.1, later.2, later.3)
  ]
]
