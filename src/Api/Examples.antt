-- ===== src/Api/Examples.antt =====
-- Responses to the client (web/src/lib/api.ts).
use court_command.Prelude.{◌≡◌, Option, none, some}
use court_command.Api.{Response, api_call, api_get_paginated}
use court_command.Api.Errors.{refused_with, refused_iff}

-- A proxy's error, whose body is no JSON.
abbrev bad_gateway : Option Response
bad_gateway = some record { status = 502; body = none }

refused_iff_example :
    (refused_with (api_call bad_gateway) ≡ some 502)
    × (refused_with (api_get_paginated bad_gateway) ≡ some 502)
refused_iff_example = refused_iff bad_gateway
