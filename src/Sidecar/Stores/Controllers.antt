-- ===== src/Sidecar/Stores/Controllers.antt =====
-- services/sidecar/src/stores.rs: `ControllerDevicesStore`. The writing of the file is an argument.
pub mod Bound
use your_connector.Common.{
  ◌&&◌, not, Bool, true, false, Option, none, some, List, [], ◌∷◌, String, Result, ok, err, ◌==◌,
  string_eq, eqb, length, if◌then◌else◌,
}
use your_connector.Common.Exec.{Exec, pure, modify, ◌>>=◌, ◌>>◌}
use your_connector.Common.HashSet
use your_connector.Common.HashSet.{HashSet}
use your_connector.Common.Text.{trim, is_empty}

pub record ControllerDevicesStore : Type 0 where
  pub path : Option String
  pub ids : HashSet String

abbrev saved : Option String → Result String (Unit {0}) → Result String (Unit {0})
saved none written = ok tt
saved (some path) written = written

unfoldable pub save : Result String (Unit {0}) → Exec ControllerDevicesStore String (Unit {0})
save written s = (saved s.path written, s)

abbrev pub put_and_save :
    {A : Type 0}
    → Result String (Unit {0})
    → HashSet String
    → A
    → Exec ControllerDevicesStore String A
put_and_save written ids a = do modify (λ s. record s { ids = ids }); save written; pure a

abbrev pub is_none_bound : HashSet String → Bool
is_none_bound [] = true
is_none_bound (id ∷ ids) = false

unfoldable pub authorize_or_bind :
    Result String (Unit {0})
    → String
    → String
    → Bool
    → Exec ControllerDevicesStore String (Bool × String)
unfolding save
authorize_or_bind written source_client_type source_device_id allow_first_bind s =
    let device_id = trim source_device_id in
    if not (source_client_type == "app")
    then (ok (false, "仅接受 app 客户端控制命令。"), s)
    else if is_empty device_id
    then (ok (false, "缺少来源设备标识。"), s)
    else if is_none_bound s.ids
    then (if not allow_first_bind
        then (
          ok (
            false,
            "当前未绑定控制设备。请在 sidecar 环境变量设置 CONTROLLER_DEVICE_IDS，或开启 ALLOW_FIRST_CONTROLLER_BIND。",
          ),
          s,
        )
        else put_and_save written (HashSet.insert device_id s.ids) (true, "") s)
    else if HashSet.contains device_id s.ids
    then (ok (true, ""), s)
    else (ok (false, "该设备未被授权控制当前 sidecar。"), s)

-- the loop of `seed`
unfoldable pub seed_ids : List String → HashSet String → HashSet String
seed_ids [] ids = ids
seed_ids (id ∷ more) ids =
    seed_ids more (if is_empty (trim id) then ids else HashSet.insert (trim id) ids)

unfoldable pub seed :
    Result String (Unit {0}) → List String → Exec ControllerDevicesStore String (Unit {0})
unfolding save
seed written device_ids s =
    let ids = seed_ids device_ids s.ids in
    if eqb (length ids) (length s.ids)
    then (ok tt, record s { ids = ids })
    else put_and_save written ids tt s

unfoldable pub rebind : Result String (Unit {0}) → String → Exec ControllerDevicesStore String Bool
unfolding save
rebind written device_id s =
    let value = trim device_id in
    if is_empty value
    then (ok false, s)
    else if eqb (length s.ids) 1 && HashSet.contains value s.ids
    then (ok false, s)
    else put_and_save written (HashSet.insert value []) true s
