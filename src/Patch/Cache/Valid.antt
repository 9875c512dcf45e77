-- ===== src/Patch/Cache/Valid.antt =====
-- When a cache of PatchServer/PatchCache.cpp is well formed, and the changes that keep it so: a file
-- takes a slot, or a name is forgotten.
use tars_framework.Base.{
  has, ℕ, ◌≤◌, true, false, ◌||◌, ◌≡◌, sym, ◌∙◌, some, List, ◌⊎◌, inl, inr, String, str_eq,
  string_key, eq_iff, ◌==◌, ==_iff, length, get_elem?, arith, Bool-cases,
}
use tars_framework.Base.Map.{find}
use tars_framework.Patch.Cache.{MemState, PatchCache, is_settled, is_loading}

-- The buffer is as large as it was made, and the file fits into it.
pub record IsSound (mem_max : ℕ) (m : MemState) : Type 0 where
  pub buf : List ℕ
  pub has_buf : m.mem_buf ≡ some buf
  pub full : length buf ≡ mem_max
  pub fits : m.file_size ≤ mem_max

-- A slot of `_vecMems`: it is not in the middle of a load, and `_mapFiles` has it under its name.
pub record IsLive (c : PatchCache) (a : ℕ) : Type 0 where
  pub state : MemState
  pub here : get_elem? c.heap a ≡ some state
  pub settled : is_settled state.mem_load ≡ true
  pub named : find state.file_name c.map_files ≡ some a
  pub sound : IsSound c.mem_max state

-- A slot of `_mapFiles`: one of `_vecMems` with this name, or one whose buffer could not be made.
pub record IsMapped (c : PatchCache) (file : String) (a : ℕ) : Type 0 where
  pub state : MemState
  pub here : get_elem? c.heap a ≡ some state
  pub kind :
      ((has a c.vec_mems ≡ true) × (state.file_name ≡ file))
      ⊎ ((has a c.vec_mems ≡ false) × (is_loading state.mem_load ≡ true))

pub record IsValid (c : PatchCache) : Type 0 where
  pub live : (a : ℕ) → has a c.vec_mems ≡ true → IsLive c a
  pub mapped : (file : String) (a : ℕ) → find file c.map_files ≡ some a → IsMapped c file a

-- The slot `a` has the file now; nothing else is changed but a name that `a` had.
pub record Placed (c : PatchCache) (file : String) (a : ℕ) (state : MemState) (d : PatchCache)
    : Type 0 where
  pub same_max : d.mem_max ≡ c.mem_max
  pub others : (b : ℕ) → (a == b) ≡ false → get_elem? d.heap b ≡ get_elem? c.heap b
  pub slots : (b : ℕ) → has b d.vec_mems ≡ ((b == a) || has b c.vec_mems)
  pub own : find file d.map_files ≡ some a
  pub old :
      (g : String) (b : ℕ)
      → str_eq file g ≡ false
      → find g d.map_files ≡ some b
      → (find g c.map_files ≡ some b) × ((a == b) ≡ false)
  pub keep :
      (g : String) (b : ℕ)
      → str_eq file g ≡ false
      → (a == b) ≡ false
      → find g c.map_files ≡ some b
      → find g d.map_files ≡ some b
  pub alone : (b : ℕ) → find file c.map_files ≡ some b → (a == b) ≡ true
  pub here : get_elem? d.heap a ≡ some state
  pub settled : is_settled state.mem_load ≡ true
  pub name : state.file_name ≡ file
  pub sound : IsSound c.mem_max state

module _ (c : PatchCache) (file : String) (a : ℕ) (m : MemState) (d : PatchCache) (v : IsValid c)
    (p : Placed c file a m d) where
  -- A live slot other than `a` has another name.
  other_name : (b : ℕ) → (a == b) ≡ false → (l : IsLive c b) → str_eq file l.state.file_name ≡ false
  other_name b h l = elim (Bool-cases (str_eq file l.state.file_name)) [
    | inr e ↦ e
    | inl e ↦
        let same : file ≡ l.state.file_name = (eq_iff file l.state.file_name).0 e in
        absurd (cc (p.alone b (rw same l.named), h))
  ]

  placed-IsLive : (b : ℕ) → has b d.vec_mems ≡ true → IsLive d b
  placed-IsLive b h = elim (Bool-cases (a == b)) [
    | inl e ↦
        let same : a ≡ b = (==_iff a b).0 e in
        record {
          state = m;
          here = rw (sym same) p.here;
          settled = p.settled;
          named = rw (p.name, sym same) p.own;
          sound = rw (p.same_max) p.sound;
        }
    | inr e ↦
        let was : has b c.vec_mems ≡ true = ground (arith, p.slots b) in
        let l = v.live b was in
        record {
          state = l.state;
          here = p.others b e ∙ l.here;
          settled = l.settled;
          named = p.keep l.state.file_name b (other_name b e l) e l.named;
          sound = rw (p.same_max) l.sound;
        }
  ]

  placed-IsMapped : (g : String) (b : ℕ) → find g d.map_files ≡ some b → IsMapped d g b
  placed-IsMapped g b h = elim (Bool-cases (str_eq file g)) [
    | inl e ↦
        let same : file ≡ g = (eq_iff file g).0 e in
        let at : a ≡ b = cc (rw (sym same) at h, p.own) in
        record {
          state = m;
          here = rw (sym at) p.here;
          kind = inl (ground (arith, p.slots b), p.name ∙ same);
        }
    | inr e ↦
        let o = p.old g b e h in
        let w = v.mapped g b o.0 in
        record {
          state = w.state;
          here = p.others b o.1 ∙ w.here;
          kind = elim w.kind [
            | inl k ↦ inl (ground (arith, p.slots b), k.1)
            | inr k ↦ inr (ground (arith, p.slots b), k.1)
          ];
        }
  ]

  pub Placed-IsValid : IsValid d
  Placed-IsValid = record { live = placed-IsLive; mapped = placed-IsMapped }
