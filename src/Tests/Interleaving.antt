-- ===== src/Tests/Interleaving.antt =====
-- Two discoveries whose threads run side by side.
use pyadcs_connector.Prelude.{◌≡◌, refl, count, [], ◌∷◌, ok, arith, length, map, pos}
use pyadcs_connector.Text.{Text, codes, text_eq, text_lt}
use pyadcs_connector.Text.Utf8.{encode}
use pyadcs_connector.Json.{null}
use pyadcs_connector.Db.{Db, DiscoveryHistory, is_of}
use pyadcs_connector.Db.Rows.{find, update_where}
use pyadcs_connector.Discovery.{DiscoveryForm, create_discovery_history, finish_discovery}
use pyadcs_connector.Fingerprint.{certificate_fingerprint}
use pyadcs_connector.Discovery.Persist.{
  sorted_items, unique_from, get_certificate_meta, status_value, persist, bulk_create_certificates,
  id_by_fp, links_for,
}
use pyadcs_connector.Attribute.Discovery.{validate_discovery_kind}
use pyadcs_connector.Discovery.Response.{
  DiscoveryHistoryRequestDto, DiscoveryHistoryResponseDto, ByUuid, dto_of, ordered_rows, page_index,
  slice, with_certificates, get_discovery_history_data,
}
use pyadcs_connector.Discovery.Response.Laws.{read_pages, read_pages_cover}
use pyadcs_connector.System.Shown.{running_shows_nothing}
use pyadcs_connector.System.{System, empty_db, Reach, begin, later, start, finish}
use pyadcs_connector.System.Threads.{is_completed}
use pyadcs_connector.System.Reachable.{IsSound, Reach-IsSound, Reach-completed}
use pyadcs_connector.Tests.Database.{digest, uuid_of, message, in_table, ca, collected, history}

abbrev pub form : Text → DiscoveryForm
form name = record { name = name; kind = codes "PyADCS-WinRM"; attributes = null }

abbrev pub first : DiscoveryHistory
first = history 1 "u1" "first" "inProgress"

abbrev pub second : DiscoveryHistory
second = history 2 "u2" "second" "inProgress"

abbrev pub one_started : Db
one_started = record empty_db { histories = first ∷ []; history_seq = 1 }

abbrev pub two_started : Db
two_started = record empty_db { histories = first ∷ second ∷ []; history_seq = 2 }

-- The second thread has ended, the first one still runs.
abbrev pub one_left : System
one_left = record {
  db = finish_discovery digest uuid_of message second (ok (ca ∷ [], collected)) two_started;
  running = first ∷ [];
}

run : Reach in_table digest uuid_of message one_left
unfolding create_discovery_history text_eq validate_discovery_kind status_value
run =
    later
      (later
        (later begin (start (codes "u1") (form (codes "first")) first one_started refl refl refl))
        (start (codes "u2") (form (codes "second")) second two_started refl refl refl))
      (finish [] second (first ∷ []) (ok (ca ∷ [], collected)) refl)

Reach-IsSound_example : IsSound one_left
Reach-IsSound_example = Reach-IsSound in_table digest uuid_of message one_left run

Reach-completed_example : count (is_completed 2) one_left.db.histories ≡ 1
unfolding finish_discovery persist find update_where text_eq sorted_items unique_from
    bulk_create_certificates certificate_fingerprint links_for id_by_fp get_certificate_meta encode
    text_lt
Reach-completed_example =
    Reach-completed in_table digest uuid_of message one_left 2 run (omega arith)

abbrev as_stored : ByUuid
as_stored = record { order = λ rows. rows; same_rows = λ p rows. refl }

abbrev first_page : DiscoveryHistoryRequestDto
first_page = record {
  name = codes "first";
  kind = codes "PyADCS-WinRM";
  page_number = pos 1;
  items_per_page = pos 10;
}

abbrev nothing_yet : DiscoveryHistoryResponseDto
nothing_yet = record {
  name = codes "first";
  uuid = codes "u1";
  status = codes "inProgress";
  certificate_data = [];
  meta = null;
  total_certificates_discovered = 0;
}

running_shows_nothing_example :
    (nothing_yet.certificate_data ≡ []) × (nothing_yet.total_certificates_discovered ≡ 0)
unfolding finish_discovery persist find update_where text_eq sorted_items unique_from
    bulk_create_certificates certificate_fingerprint links_for id_by_fp get_certificate_meta encode
    text_lt get_discovery_history_data slice page_index with_certificates
running_shows_nothing_example =
    running_shows_nothing in_table digest uuid_of message as_stored one_left [] first [] first_page
      nothing_yet run refl refl

-- The database after both threads.
abbrev shown : Db
shown = one_left.db

read_pages_cover_example :
    (read_pages as_stored second shown 2 2 0 ≡ ok (map dto_of (ordered_rows as_stored 2 shown)))
    × (length (ordered_rows as_stored 2 shown) ≡ count (is_of 2) shown.links)
unfolding finish_discovery persist find update_where text_eq sorted_items unique_from
    bulk_create_certificates certificate_fingerprint links_for id_by_fp get_certificate_meta encode
    text_lt
read_pages_cover_example =
    let sound = Reach-IsSound in_table digest uuid_of message one_left run in
    read_pages_cover as_stored second shown 2 2 sound.consistent (omega arith)
