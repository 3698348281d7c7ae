-- ===== src/Service/Masking.antt =====
-- What a status shows of a proxy (internal/domain/services/connection.go and internal/domain/proxy.go).
use zappermeow.Base.{
  ℕ, Bool, false, [], ◌∷◌, Option, none, some, String, ◌≡◌, refl, inl, inr, arith, ◌==◌, Bool-cases,
  Option-cases, is_empty,
}
use zappermeow.Domain.Proxy.{Url, Urls, normalize_proxy_url, mask_proxy_url}
use zappermeow.Service.Status.{StatusCall, status, status_row, list_instances_sharing_number}
use zappermeow.Store.Instances.{
  InstanceRow, Instances, get_instance, instance_id, on_instance, set_instance_proxy, with_proxy,
}
use zappermeow.Store.Table.{update, touched, find-update}

-- Two addresses that differ in the password alone are shown alike.
mask_proxy_url-password :
    (urls : Urls) (raw raw' password password' : String) (u : Url)
    → is_empty (normalize_proxy_url raw) ≡ false
    → is_empty (normalize_proxy_url raw') ≡ false
    → urls.parse (normalize_proxy_url raw) ≡ some (record u { password = some password })
    → urls.parse (normalize_proxy_url raw') ≡ some (record u { password = some password' })
    → mask_proxy_url urls raw ≡ mask_proxy_url urls raw'
unfolding mask_proxy_url
mask_proxy_url-password urls raw raw' password password' u given given' read read' =
    rw (given, given', read, read') refl

-- The number of an instance is not its proxy.
sharing-set_instance_proxy :
    (now id target tenant : ℕ) (phone : String) (proxy : Option String) (is : Instances)
    → list_instances_sharing_number tenant phone id (set_instance_proxy now target proxy is)
      ≡ list_instances_sharing_number tenant phone id is
unfolding list_instances_sharing_number on_instance update
sharing-set_instance_proxy now id target tenant phone proxy [] = refl
sharing-set_instance_proxy now id target tenant phone proxy (i ∷ is) =
    ground (arith, sharing-set_instance_proxy now id target tenant phone proxy is)

status_row-set_instance_proxy :
    (urls : Urls) (down : StatusCall → Bool) (now id tenant : ℕ) (raw raw' : String)
    (is : Instances) (o : Option InstanceRow)
    → mask_proxy_url urls raw ≡ mask_proxy_url urls raw'
    → let row = λ (r : String).
      status_row urls down tenant
        (touched (λ (x : InstanceRow). x.id == id) (with_proxy now (some r)) o)
        (set_instance_proxy now id (some r) is) in
      row raw ≡ row raw'
status_row-set_instance_proxy urls down now id tenant raw raw' is none shown = refl
status_row-set_instance_proxy urls down now id tenant raw raw' is (some i) shown =
    elim (Bool-cases (i.id == id)) [
      | inl named ↦ rw named (elim (Option-cases i.phone_number) [
        | inl alone ↦ rw (alone, shown) refl
        | inr (phone, there) ↦
            rw
              (
                there,
                shown,
                sharing-set_instance_proxy now i.id id tenant phone (some raw) is,
                sharing-set_instance_proxy now i.id id tenant phone (some raw') is,
              )
              refl
      ])
      | inr other ↦ rw other (elim (Option-cases i.phone_number) [
        | inl alone ↦ rw alone refl
        | inr (phone, there) ↦
            rw
              (
                there,
                sharing-set_instance_proxy now i.id id tenant phone (some raw) is,
                sharing-set_instance_proxy now i.id id tenant phone (some raw') is,
              )
              refl
      ])
    ]

-- Whichever of two addresses that differ in the password alone is stored for the proxy of an instance,
-- every status reads the same: it shows nothing of the password.
pub status-hides_password :
    (urls : Urls) (down : StatusCall → Bool) (now tenant id : ℕ)
    (raw raw' password password' : String) (u : Url) (is : Instances)
    → is_empty (normalize_proxy_url raw) ≡ false
    → is_empty (normalize_proxy_url raw') ≡ false
    → urls.parse (normalize_proxy_url raw) ≡ some (record u { password = some password })
    → urls.parse (normalize_proxy_url raw') ≡ some (record u { password = some password' })
    → status urls down tenant id (set_instance_proxy now id (some raw) is)
      ≡ status urls down tenant id (set_instance_proxy now id (some raw') is)
unfolding status on_instance
status-hides_password urls down now tenant id raw raw' password password' u is given given' read
      read' =
    let shown =
      mask_proxy_url-password urls raw raw' password password' u given given' read read' in
    let row : (r : String)
        → get_instance id (set_instance_proxy now id (some r) is)
          ≡ touched (λ (x : InstanceRow). x.id == id) (with_proxy now (some r))
              (get_instance id is) =
      λ r.
        find-update instance_id (λ (x : InstanceRow). x.id == id) (with_proxy now (some r))
          (λ x. refl) id is in
    elim (Bool-cases (down StatusCall.reads)) [
      | inl fails ↦ rw fails refl
      | inr up ↦
          rw (up, row raw, row raw')
            (status_row-set_instance_proxy urls down now id tenant raw raw' is (get_instance id is)
              shown)
    ]
