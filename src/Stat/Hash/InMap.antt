-- ===== src/Stat/Hash/InMap.antt =====
-- A table as the parameters of StatServer/StatHashMap.h and PropertyServer/PropertyHashMap.h have it: a map,
-- full beyond nine records of ten.
use tars_framework.Base.{refl, Option, none, some, String, string_key, eq_iff, length, beq_ne}
use tars_framework.Base.Int.{pos}
use tars_framework.Base.Map.{Map, find, insert, find-insert}
use tars_framework.Stat.Hash.{Got, ok, no_data, HashTable}
use tars_framework.Stat.Hash.Summary.{Keeps}

module _ (Bytes : Type 0) where
  abbrev pub of_option : Option Bytes → Got Bytes
  of_option none = no_data
  of_option (some bs) = ok bs

  abbrev pub table : HashTable Bytes
  table = record {
    Store = Map String Bytes;
    get = λ k m. of_option (find k m);
    set = λ k v m. (pos 0, insert k v m);
    used_chunk = length;
    all_chunks = λ m. 10;
  }

  pub table-Keeps : Keeps table
  table-Keeps = record {
    stored = λ k v m room z. rw (find-insert k k v m, (eq_iff k k).1 refl) refl;
    kept = λ k l v m room h. rw (find-insert k l v m, beq_ne string_key k l h) refl;
    refused = λ k l v m room z. absurd cc;
  }
