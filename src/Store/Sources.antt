-- ===== src/Store/Sources.antt =====
-- internal/store/store.go: sources. They raise no event.
use the_score.Base.{String, List, Option, ◌==◌, if◌then◌else◌}
use the_score.Base.Sort.{sort}
use the_score.Base.Table.{get, put, values}
use the_score.Strings.{less}
use the_score.Model.{Time, Source}
use the_score.Store.{Store, now, tick, or_time}

-- The default of `UpsertSource`.
unfoldable pub fill_source : Time → Source → Source
fill_source time source = record source { observed_at = or_time source.observed_at time }

unfoldable pub upsert_source : Source → Store → Store × Source
upsert_source source s =
    let filled = fill_source (now s) source in
    if source.id == ""
    then (tick s, source)
    else (record (tick s) { sources = put filled.id filled s.sources }, filled)

-- `none` is ErrNotFound
unfoldable pub get_source : String → Store → Option Source
get_source id s = get id s.sources

unfoldable pub list_sources : Store → List Source
list_sources s = sort (λ a b. less a.id b.id) (values s.sources)
