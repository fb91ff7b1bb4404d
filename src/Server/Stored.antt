-- ===== src/Server/Stored.antt =====
-- What the `asset_add_...` methods of src/db.cpp store, described apart from them.
use flight_safety_system.Base.{
  ℕ, zero, suc, ◌%◌, ◌^◌, ◌≡◌, refl, arith, List, [], ◌∷◌, ◌==◌, if◌then◌else◌, not,
}
use flight_safety_system.Floats.{Floats}
use flight_safety_system.Db.{
  Database, DbWrite, asset_add_rtt, asset_add_status, asset_add_search_status, asset_add_position,
}

-- One entry under the id of an asset, and nothing for the id 0, which no asset has.
abbrev pub entries_for {ℓ} : {A : Type ℓ} → ℕ → (ℕ → A) → List A
entries_for zero entry = []
entries_for (suc n) entry = entry (suc n) ∷ []

guarded {ℓ} :
    {A : Type ℓ} (n : ℕ) (entry : ℕ → A)
    → (if not (n == 0) then entry n ∷ [] else []) ≡ entries_for n entry
guarded zero entry = refl
guarded (suc n) entry = ground arith

module _ {F : Floats} (db : Database F) (name : List ℕ) where
  pub asset_add_rtt-entries_for :
      (delta : ℕ)
      → asset_add_rtt db name delta
        ≡ entries_for (db.db_get_asset_id name) (λ id. DbWrite.rtt_entry id delta)
  unfolding asset_add_rtt
  asset_add_rtt-entries_for delta =
      guarded (db.db_get_asset_id name) (λ id. DbWrite.rtt_entry id delta)

  pub asset_add_status-entries_for :
      (percent mah : ℕ) (voltage : F.Double)
      → asset_add_status db name percent mah voltage
        ≡ entries_for (db.db_get_asset_id name) (λ id. DbWrite.status_entry id percent mah voltage)
  unfolding asset_add_status
  asset_add_status-entries_for percent mah voltage =
      guarded (db.db_get_asset_id name) (λ id. DbWrite.status_entry id percent mah voltage)

  pub asset_add_search_status-entries_for :
      (search done total : ℕ)
      → asset_add_search_status db name search done total
        ≡ entries_for
            (db.db_get_asset_id name)
            (λ id. DbWrite.search_status_entry id search done total)
  unfolding asset_add_search_status
  asset_add_search_status-entries_for search done total =
      guarded (db.db_get_asset_id name) (λ id. DbWrite.search_status_entry id search done total)

  pub asset_add_position-entries_for :
      (latitude longitude : F.Double) (altitude : ℕ)
      → asset_add_position db name latitude longitude altitude
        ≡ entries_for
            (db.db_get_asset_id name)
            (λ id. DbWrite.position_entry id latitude longitude (altitude % 2 ^ 16))
  unfolding asset_add_position
  asset_add_position-entries_for latitude longitude altitude =
      guarded (db.db_get_asset_id name)
        (λ id. DbWrite.position_entry id latitude longitude (altitude % 2 ^ 16))
