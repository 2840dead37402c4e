-- ===== src/UsersDevicesMap/Objects.antt =====
-- What the changes of MXUsersDevicesMap.m do to each object.
use sendingnetwork_ios.Common.{
  String, ◌≡◌, ap, ◌∙◌, none, some, ◌&&◌, if◌then◌else◌, ◌==◌, eq_iff, arith, Bool-cases, inl, inr,
}
use sendingnetwork_ios.Common.Dict.{
  Dict, lookup, insert, remove, lookup-insert, lookup-remove, lookup-insert_same,
  lookup-insert_other,
}
use sendingnetwork_ios.UsersDevicesMap.{
  UsersDevicesMap, or_empty, devices, object_for_device, set_object, remove_object,
}

module _ {V : Type 0} where
  devices-insert :
      (user other : String) (d : Dict V) (m : UsersDevicesMap V)
      → devices other (insert user d m) ≡ (if user == other then d else devices other m)
  devices-insert user other d m = elim (Bool-cases (user == other)) [
    | inl same ↦ rw same (ap or_empty (lookup-insert_same user other d m same))
    | inr apart ↦ rw apart (ap or_empty (lookup-insert_other user other d m apart))
  ]

  -- After an object is set for a device of a user, that device of that user has it, and every
  -- other device of every user has what it had.
  pub object_for_device-set_object :
      (object : V) (user device user' device' : String) (m : UsersDevicesMap V)
      → object_for_device device' user' (set_object object user device m) ≡ (
          if user == user' && device == device'
          then some object
          else object_for_device device' user' m)
  unfolding object_for_device set_object
  object_for_device-set_object object user device user' device' m =
      ap (lookup device') (devices-insert user user' (insert device object (devices user m)) m)
      ∙ ground (
        arith,
        eq_iff user user',
        eq_iff device device',
        lookup-insert device device' object (devices user m),
      )

  -- After the object of a device of a user is removed, that device of that user has none, and every
  -- other device of every user has what it had.
  pub object_for_device-remove_object :
      (user device user' device' : String) (m : UsersDevicesMap V)
      → object_for_device device' user' (remove_object user device m)
        ≡ (if user == user' && device == device' then none else object_for_device device' user' m)
  unfolding object_for_device remove_object
  object_for_device-remove_object user device user' device' m =
      ap (lookup device') (devices-insert user user' (remove device (devices user m)) m)
      ∙ ground (
        arith,
        eq_iff user user',
        eq_iff device device',
        lookup-remove device device' (devices user m),
      )
