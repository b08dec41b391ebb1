-- ===== src/Net/Examples.antt =====
-- Requests, routes and networks at concrete inputs.
use freeway_pi.Base.{
  ◌≡◌, refl, Bool, true, false, none, some, List, [], ◌∷◌, ◌++◌, map, All, ok, err,
}
use freeway_pi.Base.Texts.{
  Text, codes, same_text, is_empty, cut, cut_after, format_int, digits, unsigned, read_digits,
}
use freeway_pi.Net.Helper.{
  Field, reached, line_break, refused, has_break, line, write_field, write_fields, request,
  is_space, space_size, is_pair_space, is_wide_space, trim_from, trim_left, trim_right, trim_space,
  cut_prefix, refusal, with_code, with_detail, refusal_of, judge, hear, call, contains,
  apply_settings, apply_fields, join,
}
use freeway_pi.Net.Helper.Requests.{lines, entry, Clear, request-lines}
use freeway_pi.Net.Terse.{unterse, unterse_loop, terse, unterse-terse}
use freeway_pi.Net.Routes.{
  put_field, fields, fields_loop, atoi, up_to, read_fields, below, is_some, usable, route_of,
  better, pick_loop, pick_default_device,
}
use freeway_pi.Net.Networks.Heard.{Distinct, Falling}
use freeway_pi.Net.Networks.Sorted.{Counted, parse_networks_lem}
use freeway_pi.Net.Networks.{
  Network, network_of, is_open_security, stronger, hear_network, hear_option, hear_all, place,
  sort_networks, parse_networks, country_from, country_of, before_colon, is_country, is_capital,
}

abbrev ssid : Field
ssid = record { key = codes "ssid"; value = codes "home=1" }

abbrev join_text : Text
join_text = codes "op=wifi-forget" ++ (10 ∷ (codes "ssid=home=1" ++ (10 ∷ 46 ∷ 10 ∷ [])))

join_written : request (codes "wifi-forget") (ssid ∷ []) ≡ ok join_text
unfolding request write_fields write_field line has_break
join_written = refl

request-lines_example :
    (lines [] join_text
      ≡ (codes "op=" ++ codes "wifi-forget") ∷ (map entry (ssid ∷ []) ++ (codes "." ∷ [])))
    × Clear (codes "wifi-forget")
    × All (λ (f : Field). Clear f.value) (ssid ∷ [])
request-lines_example =
    request-lines (codes "wifi-forget") (ssid ∷ []) join_text (unfold has_break in refl, tt)
      join_written

abbrev catalogue : Text → Bool
catalogue t = same_text t (codes "helper.busy")

-- A gateway with a second line in it is refused, and the helper hears nothing of it.
smuggled :
    apply_settings
      (reached (λ t. none))
      catalogue
      (record {
        connection = codes "eth0";
        dhcp = false;
        address = codes "192.0.2.7/24";
        gateway = codes "192.0.2.1" ++ (10 ∷ codes "op=reboot");
        dns = codes "192.0.2.1" ∷ codes "192.0.2.2" ∷ [];
      })
      90
    ≡ err (line_break (codes "gateway"))
unfolding apply_settings call request write_fields write_field has_break apply_fields contains join
    is_empty format_int digits
smuggled = refl

-- A refusal whose code the catalogue has.
busy_heard :
    hear catalogue (some (codes "feil: busy" ++ (9 ∷ (codes "The helper is busy" ++ (10 ∷ [])))))
    ≡ err (refused (codes "helper.busy") none)
unfolding hear judge trim_space trim_left trim_right is_space space_size is_pair_space is_wide_space
    trim_from cut_prefix refusal with_code with_detail refusal_of cut cut_after is_empty same_text
busy_heard = refl

unterse-terse_example :
    unterse (terse (codes "a:b") (codes "c" ∷ [] ∷ [])) ≡ codes "a:b" ∷ codes "c" ∷ [] ∷ []
unterse-terse_example = unterse-terse (codes "a:b") (codes "c" ∷ [] ∷ [])

abbrev routes : List Text
routes =
    codes "default via 192.0.2.1 dev wlan0 proto dhcp metric 600"
    ∷ codes "default via 192.0.2.1 dev eth0 proto dhcp metric 100"
    ∷ codes "192.0.2.0/24 dev lo"
    ∷ []

eth_picked : pick_default_device routes ≡ codes "eth0"
unfolding pick_default_device pick_loop better below route_of usable is_some cut_prefix read_fields
    fields fields_loop put_field is_empty is_space space_size is_pair_space is_wide_space trim_from
    same_text atoi up_to unsigned read_digits
eth_picked = refl

-- One network on two bands, heard as active on the weaker.
abbrev heard : List Text
heard = codes "*:home:40:WPA2" ∷ codes ":other:55:--" ∷ codes ":home:70:WPA2" ∷ []

shown_once :
    map {B = Text × Bool} (λ (n : Network). (n.ssid, n.active)) (parse_networks (λ t. false) heard)
    ≡ (codes "home", true) ∷ (codes "other", false) ∷ []
unfolding parse_networks sort_networks place hear_all hear_option hear_network stronger network_of
    is_open_security unterse unterse_loop trim_space trim_left trim_right is_space space_size
    is_pair_space is_wide_space trim_from is_empty same_text atoi up_to unsigned read_digits below
shown_once = refl

parse_networks_lem_example :
    Distinct (parse_networks (λ t. false) heard)
    × Falling (parse_networks (λ t. false) heard)
    × All
        (Counted (parse_networks (λ t. false) heard))
        (map (λ line. network_of (λ t. false) (unterse (trim_space line))) heard)
parse_networks_lem_example = parse_networks_lem (λ t. false) heard

country_chosen :
    country_from (codes "country 99: DFS-UNSET" ∷ codes "country NO: DFS-ETSI" ∷ []) ≡ codes "NO"
unfolding country_from country_of before_colon is_country is_capital trim_space trim_left trim_right
    is_space space_size is_pair_space is_wide_space trim_from cut cut_after cut_prefix is_empty
country_chosen = refl
