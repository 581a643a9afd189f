-- ===== src/SourceAddress/Tests.antt =====
-- A view of 16 addresses: it is accepted, and read as an empty one.
use mapget.Base.{◌≡◌, some, refl}
use mapget.SourceAddress.{source_data_address_list_to_model_address}

sixteen : source_data_address_list_to_model_address 2 16 ≡ some 48
unfolding source_data_address_list_to_model_address
sixteen = refl
