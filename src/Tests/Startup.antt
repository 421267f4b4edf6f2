-- ===== src/Tests/Startup.antt =====
-- The start of the bus with a firmware that has one client, at address 1.
use ubuntu_elkhart_lake_pse.Prelude.{
  ℕ, zero, suc, ◌<◌, ◌≡◌, refl, Bool, true, false, List, [], ◌∷◌, Option, none, some, map, arith,
}
use ubuntu_elkhart_lake_pse.Prelude.Bytes.{le_bytes, same_bytes}
use ubuntu_elkhart_lake_pse.Ishtp.Types.{init_clients, enabled, Device, FwClient}
use ubuntu_elkhart_lake_pse.Ishtp.Ipc.{ishtp_send_msg}
use ubuntu_elkhart_lake_pse.Ishtp.Hbm.{ishtp_hbm_hdr}
use ubuntu_elkhart_lake_pse.Ishtp.Rings.{kmalloc}
use ubuntu_elkhart_lake_pse.Ishtp.Startup.{
  HbmState, hbm_enum_clients, hbm_client_properties, Platform, Startup, no_client,
}
use ubuntu_elkhart_lake_pse.Ishtp.Startup.Exchange.{weight}
use ubuntu_elkhart_lake_pse.Ishtp.Startup.Responses.{enum_res, props_res}
use ubuntu_elkhart_lake_pse.Ishtp.Startup.Addresses.{addresses}
use ubuntu_elkhart_lake_pse.Ishtp.Startup.Fill.{describe}
use ubuntu_elkhart_lake_pse.Ishtp.Startup.Table.{enumerated, answered, enabled_table}
use ubuntu_elkhart_lake_pse.Ishtp.Startup.Faults.{last_address_faults}
use ubuntu_elkhart_lake_pse.Tests.Data.{test_device}

abbrev platform : Platform
platform = record {
  pdev = true;
  reset_done = true;
  pm_cap = true;
  dma_inactive = true;
  registers = λ name. true;
  dma_tx_buf = some 65536;
  dma_tx_map = true;
  dma_rx_buf = some 131072;
  use_dma = true;
}

-- Bits `i` to 255 of a map that has only one bit set.
abbrev only_bit : ℕ → ℕ → List Bool
only_bit zero k = []
only_bit (suc n) zero = true ∷ only_bit n 256
only_bit (suc n) (suc k) = false ∷ only_bit n k

abbrev one_client : List Bool
one_client = only_bit 256 1

abbrev given_props : ℕ → FwClient
given_props a = record no_client { protocol_name = a ∷ []; max_msg_length = 64 }

abbrev starting_device : List Bool → List FwClient → Device
starting_device grants table = record test_device {
  dev_state = init_clients;
  device_list = [];
  fw_clients = table;
  grants = grants;
}

abbrev starting : Device → HbmState → List Bool → ℕ → ℕ → Startup
starting dev hbm map at count = record {
  dev = dev;
  heap = λ p. none;
  hbm_state = hbm;
  major_version = 1;
  minor_version = 0;
  fw_clients_map = map;
  fw_clients_num = 0;
  fw_client_presentation_num = count;
  fw_client_index = at;
  host_dma_enabled = false;
  dma_tx_buf = none;
  dma_rx_buf = none;
  dma_rx_buf_phys = 0;
  dma_rx_buf_size = 0;
  device_ready = false;
}

abbrev awaiting : Startup
awaiting = starting (starting_device (true ∷ true ∷ true ∷ []) []) hbm_enum_clients [] 0 0

abbrev from_some : Option Startup → Startup
from_some none = awaiting
from_some (some s) = s

abbrev asked : Startup
asked = from_some (enum_res platform one_client awaiting)

asked_lem : enum_res platform one_client awaiting ≡ some asked
unfolding enum_res ishtp_send_msg ishtp_hbm_hdr kmalloc
asked_lem = refl

abbrev known : Startup
known = from_some (props_res platform 1 0 (given_props 1) asked)

known_lem : props_res platform 1 0 (given_props 1) asked ≡ some known
unfolding props_res enum_res ishtp_send_msg ishtp_hbm_hdr kmalloc same_bytes le_bytes
known_lem = refl

known_enabled : known.dev.dev_state ≡ enabled
unfolding props_res enum_res ishtp_send_msg ishtp_hbm_hdr kmalloc same_bytes le_bytes
known_enabled = refl

weight_small : weight one_client < 255
unfolding weight
weight_small = omega arith

enabled_table_example :
    known.dev.fw_clients ≡ map (describe one_client given_props) (addresses one_client)
enabled_table_example =
    enabled_table one_client given_props refl weight_small refl known
      (answered platform 1 0 asked known
        (enumerated platform awaiting asked refl refl refl refl asked_lem) known_lem)
      known_enabled

-- One client, at address 255.
abbrev last_map : List Bool
last_map = only_bit 256 255

abbrev last_asked : Startup
last_asked =
    starting (starting_device [] (record no_client { client_id = 255 } ∷ [])) hbm_client_properties
      last_map 255 0

last_positive : 0 < weight last_map
unfolding weight
last_positive = omega arith

last_address_faults_example : props_res platform 255 0 (given_props 255) last_asked ≡ none
last_address_faults_example =
    last_address_faults platform (given_props 255) last_asked refl last_positive refl refl refl refl
      (omega arith) refl
