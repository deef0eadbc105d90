-- ===== src/Tests/Queues.antt =====
-- The examples of the device-queue and of getNextDeviceQueueItem.
use chirpstack_network_serve.Prelude.{
  ℕ, ◌+◌, ◌*◌, ◌<◌, ◌≡◌, refl, subst, true, false, none, some, List, [], ◌∷◌, ok, arith, length,
}
use chirpstack_network_serve.ClassB.{Encrypt}
use chirpstack_network_serve.Queue.{
  Item, Table, has_id, by_f_cnt, create_device_queue_item, get_next_device_queue_item,
  get_device_queue_items, schedule_item, insert_item,
}
use chirpstack_network_serve.Queue.Ids.{Operation, create, run, IsTable}
use chirpstack_network_serve.Queue.Refines.{
  Refined, run-Refined, IsNext, get_next_device_queue_item-IsNext,
}
use chirpstack_network_serve.Queue.Reads.{Reads, run-Reads}
use chirpstack_network_serve.Downlink.NextItem.{Reading, ReEncrypted, AppServer, next_item}
use chirpstack_network_serve.Downlink.NextItem.Requeue.{items_of}
use chirpstack_network_serve.Downlink.NextItem.Usable.{Usable}
use chirpstack_network_serve.Downlink.NextItem.Rank.{IsNumbered}
use chirpstack_network_serve.Downlink.NextItem.Ends.{Ends, Renumbers}
use chirpstack_network_serve.Downlink.NextItem.Loop.{next_item_terminates}
use chirpstack_network_serve.Tests.Sample.{sample_session, sample_device_profile}

abbrev pub queued : ℕ → ℕ → Item
queued id f_cnt = record {
  id = id;
  dev_addr = 16909060;
  dev_eui = 42;
  frm_payload = 1 ∷ 2 ∷ 3 ∷ [];
  f_cnt = f_cnt;
  f_port = 2;
  confirmed = false;
  is_pending = false;
  emit_at_time_since_gps_epoch = none;
  timeout_after = none;
  retry_after = none;
}

-- Two items of the device, not in the order of their frame-counters.
abbrev pub two_items : Table
two_items = record { tie = λ id. id; next_id = 3; rows = queued 1 8 ∷ queued 2 7 ∷ [] }

abbrev three_items : Table
three_items = record {
  tie = λ id. id;
  next_id = 4;
  rows = queued 1 8 ∷ queued 2 7 ∷ queued 3 9 ∷ [];
}

abbrev no_encrypt : Encrypt
no_encrypt time dev_addr = (0, 0)

abbrev create_third : Operation
create_third = create no_encrypt 1000 sample_device_profile sample_session (queued 0 9)

two_items-create : run create_third two_items ≡ ok three_items
unfolding run create_device_queue_item schedule_item insert_item
two_items-create = refl

two_items-IsTable : IsTable two_items
unfolding has_id
two_items-IsTable = record { unique = (refl, (refl, tt)); below = (omega arith, (omega arith, tt)) }

run-Reads_example : Reads create_third two_items three_items 3
run-Reads_example =
    run-Reads create_third two_items three_items 3 two_items-IsTable two_items-create

run-Refined_example : Refined create_third two_items three_items 42
run-Refined_example = run-Refined create_third two_items three_items 42 tt two_items-create

two_items-next : get_next_device_queue_item two_items 42 1000 ≡ ok (queued 2 7, true)
unfolding get_next_device_queue_item get_device_queue_items by_f_cnt
two_items-next = refl

get_next_device_queue_item-IsNext_example : IsNext two_items 42 1000 (queued 2 7) true
get_next_device_queue_item-IsNext_example =
    get_next_device_queue_item-IsNext two_items 42 1000 (queued 2 7) true two_items-next

-- The application-server numbers the items.
abbrev renumber : ℕ → List Item → List ReEncrypted
renumber s [] = []
renumber s (i ∷ is) =
    record { frm_payload = i.frm_payload; f_cnt = s; f_port = i.f_port; confirmed = i.confirmed }
    ∷ renumber (s + 1) is

abbrev sample_app : AppServer
sample_app = record {
  client_ok = true;
  ack_ok = λ f. true;
  error_ok = λ f. true;
  re_encrypt = λ s items. some (renumber s items);
}

-- The session expects frame-counter 4.
abbrev sample_reading : Reading
sample_reading = record {
  encrypt = no_encrypt;
  now = 1000;
  device_profile = sample_device_profile;
  session = sample_session;
  db_in_transaction = false;
  max_payload_size = 20;
  app = sample_app;
}

length-renumber : (s : ℕ) (items : List Item) → length (renumber s items) ≡ length items
length-renumber s [] = refl
length-renumber s (i ∷ is) = omega (arith, length-renumber (s + 1) is)

renumber-IsNumbered : (s : ℕ) (items : List Item) → IsNumbered s (renumber s items)
renumber-IsNumbered s [] = tt
renumber-IsNumbered s (i ∷ is) = (refl, renumber-IsNumbered (s + 1) is)

sample_reading-Renumbers : Renumbers sample_reading
sample_reading-Renumbers = record {
  numbered = λ s items xs h.
      let same : renumber s items ≡ xs = ground (arith, h) in
      subst (λ y. (length y ≡ length items) × IsNumbered s y) same
        (length-renumber s items, renumber-IsNumbered s items);
}

two_items-short : 3 * length (items_of sample_reading two_items) + 2 < 9
unfolding get_device_queue_items by_f_cnt
two_items-short = omega arith

next_item_terminates_example :
    Ends (next_item 9 sample_reading two_items)
    × Usable sample_reading (next_item 9 sample_reading two_items)
next_item_terminates_example =
    next_item_terminates 9 sample_reading two_items sample_reading-Renumbers two_items-short
