-- ===== src/Web/Examples.antt =====
-- Requests at concrete inputs.
use freeway_pi.Base.{◌≡◌, refl, true, false, none, some, [], ◌++◌, set, replicate}
use freeway_pi.Base.Texts.{codes, same_text, is_empty}
use freeway_pi.Auth.{new}
use freeway_pi.Bus.Poller.{Snapshot}
use freeway_pi.Eda.{Unit16}
use freeway_pi.Eda.State.{Calendar, State, decode_snapshot}
use freeway_pi.Web.Requests.{Request, is_foreign, is_own_site, same_host}
use freeway_pi.Web.Handlers.{Reply, plain_reply, Parsers, Draw, Server}
use freeway_pi.Web.Routes.{Handler, mode, authenticated, act, serve}
use freeway_pi.Web.Guarded.{open_writes, is_asked, asks_one_of, serve_guarded}
use freeway_pi.Web.Sites.{is_checked, Refused, act_foreign}
use freeway_pi.Web.Handlers.{Controller}
use freeway_pi.Eda.{do_writes}
use freeway_pi.Base.{some}

abbrev parsers : Parsers
parsers = record {
  url_host = λ t. some (codes "elsewhere.example");
  mode = λ t. some t;
  celsius = λ t. none;
  percent = λ t. none;
  timed = λ t. none;
  setting = λ t. none;
  week = λ t. none;
  year = λ t. none;
  index = λ t. none;
  setup = λ t. none;
  login = λ t. none;
  change = λ t. none;
}

abbrev draw : Draw
draw = record {
  crypto = record {
    hmac = λ k t. k ++ t;
    encode = λ t. t;
    decode = λ t. some t;
    raw_url = λ t. t;
    pbkdf2 = λ pin salt n. pin ++ salt;
  };
  now = 1000;
  fresh = codes "f";
  fresh_salt = codes "s";
  save = λ c. true;
}

abbrev plain : Calendar
plain = record {
  date = λ year month day hour minute second. 0;
  day = λ t. 0;
  month = λ t. 0;
  weekday = λ t. 0;
}

-- The state of a unit that was just read.
abbrev look : Unit16 → State
look u =
    let s : Snapshot = record {
      started = 1;
      finished = 2;
      holding = u.holding;
      coils = u.coils;
      failed = [];
    } in
    decode_snapshot plain 3 60 s

-- A control that does every list of writes.
abbrev answering : (Unit16 → State) → Controller Unit16
answering look = record {
  state = λ u. some (look u);
  has_settings = λ u. true;
  has_programs = λ u. true;
  apply = λ ws u. (true, do_writes ws u);
}

-- Away is on.
abbrev house : Unit16
house = record { coils = set (replicate 80 false) 1 true; holding = replicate 738 0 }

abbrev home : Server Unit16
home = record {
  unit = house;
  auth = new (record {
    salt = codes "salt";
    verifier = codes "v";
    iterations = 120000;
    session_secret = codes "secret";
    session_days = 90;
  });
}

abbrev press : Request
press = record {
  method = codes "POST";
  path = codes "/api/control/mode";
  host = codes "192.0.2.7";
  fetch_site = codes "same-origin";
  origin = [];
  content_type = codes "application/json; charset=utf-8";
  body = codes "boost";
  index = [];
  session = none;
}

abbrev no_others : Handler → Request → Server Unit16 → Reply × Server Unit16
no_others h r s = (plain_reply 200, record s { unit = record house { coils = [] } })

-- A reboot that nobody signed in for.
abbrev reboot : Request
reboot = record press { path = codes "/api/system/reboot" }

reboot_closed : asks_one_of open_writes reboot ≡ false
unfolding asks_one_of open_writes is_asked same_text
reboot_closed = refl

serve_guarded_example :
    (serve parsers (answering look) draw (λ r s. 404) no_others reboot home).1 ≡ home
serve_guarded_example =
    serve_guarded parsers (answering look) draw (λ r s. 404) no_others reboot home
      (unfold authenticated in refl) reboot_closed

-- A press of the button on a page of another site.
abbrev foreign : Request
foreign = record press { origin = codes "https://elsewhere.example" }

foreign_seen : is_foreign parsers.url_host foreign ≡ true
unfolding is_foreign is_own_site same_host same_text is_empty
foreign_seen = refl

act_foreign_example :
    Refused (act parsers (answering look) draw (λ r s. 404) no_others mode foreign home) home
act_foreign_example =
    act_foreign parsers (answering look) draw (λ r s. 404) no_others foreign home foreign_seen mode
      (unfold is_checked in refl)
