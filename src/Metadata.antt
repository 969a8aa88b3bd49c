-- ===== src/Metadata.antt =====
-- wire/metadata.go: the topic of a message that carries native metadata. `equal_fold` is
-- `strings.EqualFold`.
use benzene_go.Prelude.{String, Bool, [], ◌&&◌, ◌∷◌, if◌then◌else◌, ◌==◌, string_eq, nat_eq}
use benzene_go.Maps.{Map, insert}

abbrev pub default_topic_key : String
default_topic_key = "topic"

-- The loop of `ResolveMetadataTopic`, over the metadata in the order that the range gives.
unfoldable pub resolve_entries :
    (String → String → Bool)
    → String
    → Map String String
    → String
    → Map String String
    → String × Map String String
resolve_entries equal_fold key [] topic headers = (topic, headers)
resolve_entries equal_fold key ((name, value) ∷ entries) topic headers =
    let matched = resolve_entries equal_fold key entries value headers in
    let other = resolve_entries equal_fold key entries topic (insert name value headers) in
    if topic == "" && equal_fold name key then matched else other

-- `ResolveMetadataTopic`
unfoldable pub resolve_metadata_topic :
    (String → String → Bool) → Map String String → String → String × Map String String
unfolding resolve_entries
resolve_metadata_topic equal_fold metadata key = resolve_entries equal_fold key metadata "" []
