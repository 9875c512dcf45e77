-- ===== src/Stat/Reports/Heads.antt =====
-- The head under which `reportMicMsg` of StatServer/StatImp.cpp stores a report.
use Prim.Native.String
use tars_framework.Base.{
  Bool, true, false, Option, ◌≡◌, refl, ap, ◌∙◌, none, some, String, string_key, if◌then◌else◌, ◌+◌,
  ltb,
}
use tars_framework.Base.Map.{Map, find}
use tars_framework.Stat.Hash.{StatMicMsgHead}
use tars_framework.Stat.Reports.{complete_head, split_version}

-- The head that a report is stored under: the address of the caller on the side it speaks for, unless
-- the service called has a virtual address, which is then that of the master; and the name of the
-- master parted at its first "@", if it has one.
abbrev pub stored_head : Bool → String → Map String String → StatMicMsgHead → StatMicMsgHead
stored_head from_client host virtual_ip head =
    let size = String.len head.master_name in
    let at_sign = String.find head.master_name "@" in
    record head {
      master_ip = elim (find head.slave_name virtual_ip) [
        | some ip ↦ ip
        | none ↦ if from_client then host else head.master_ip
      ];
      slave_ip = if from_client then head.slave_ip else host;
      master_name =
          if ltb at_sign size then String.slice head.master_name 0 at_sign else head.master_name;
      tars_version =
          if ltb at_sign size
          then String.slice head.master_name (at_sign + 1) size
          else head.tars_version;
    }

abbrev unversioned : StatMicMsgHead → StatMicMsgHead
unversioned head =
    let size = String.len head.master_name in
    let at_sign = String.find head.master_name "@" in
    record head {
      master_name =
          if ltb at_sign size then String.slice head.master_name 0 at_sign else head.master_name;
      tars_version =
          if ltb at_sign size
          then String.slice head.master_name (at_sign + 1) size
          else head.tars_version;
    }

split_version_lem : (head : StatMicMsgHead) → split_version head ≡ unversioned head
unfolding split_version
split_version_lem head =
    go (ltb (String.find head.master_name "@") (String.len head.master_name)) refl
  where
    go :
        (b : Bool)
        → ltb (String.find head.master_name "@") (String.len head.master_name) ≡ b
        → split_version head ≡ unversioned head
    go true e = rw (split_version, e) refl
    go false e = rw (split_version, e) refl

abbrev with_virtual_ip : Map String String → StatMicMsgHead → StatMicMsgHead
with_virtual_ip virtual_ip head = elim (find head.slave_name virtual_ip) [
  | none ↦ head
  | some ip ↦ record head { master_ip = ip }
]

virtual_ip_lem :
    (found : Option String) (head : StatMicMsgHead)
    → (elim found [ none ↦ head | some ip ↦ record head { master_ip = ip } ])
      ≡ record head { master_ip = elim found [ some ip ↦ ip | none ↦ head.master_ip ] }
virtual_ip_lem none head = refl
virtual_ip_lem (some ip) head = refl

pub complete_head_lem :
    (from_client : Bool) (host : String) (virtual_ip : Map String String) (head : StatMicMsgHead)
    → complete_head from_client host virtual_ip head ≡ stored_head from_client host virtual_ip head
unfolding complete_head
complete_head_lem true host virtual_ip head =
    ap (with_virtual_ip virtual_ip) (split_version_lem (record head { master_ip = host }))
    ∙ virtual_ip_lem (find head.slave_name virtual_ip)
        (unversioned (record head { master_ip = host }))
complete_head_lem false host virtual_ip head =
    ap (with_virtual_ip virtual_ip) (split_version_lem (record head { slave_ip = host }))
    ∙ virtual_ip_lem (find head.slave_name virtual_ip)
        (unversioned (record head { slave_ip = host }))
