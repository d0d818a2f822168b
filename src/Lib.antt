-- ===== src/Lib.antt =====
-- The molten pour: the core of a web application in which a customer pours metal from a virtual
-- vessel and receives a certificate of the pour.
--
-- A pour is played in the browser, which measures it: droplets landed, the peak velocity, the tilt
-- energy and the time that the vessel was held. The measurements are clamped to what the physics of
-- the purchased tier allows (app/sigil/telemetry.ts), hashed together with the price and the time to
-- the seed of the drawn sigil (app/sigil/sigil.ts), and scored for a rarity (app/sigil/rarity.ts).
-- app/ceremony/tiers.ts puts prices and names on the tiers. app/pour/api.ts sends the pour to the
-- ledger server, with retries, and guards the records that come back; app/pour/record.ts prints them.
-- The server (api) clamps, hashes and scores the claim again, by a second implementation of the
-- pipeline, and keeps the record in its ledger under the start time of the pour.
--
-- Number    ECMAScript's Number as IEEE 754 binary64, bit for bit: values in units of 2 ^ -1074,
--           every operator the exact result rounded to nearest, ties to even. Math.floor, ceil,
--           round, min, max, abs and sqrt, and ToUint32. There is one zero: no code here tells -0
--           from 0. Loops run on fuel that covers every exponent.
-- Text      Strings as lists of character codes, with String(n), toFixed and toLocaleString.
-- Telemetry app/sigil/telemetry.ts: SIM, TIER_BOUNDS, clampTierIndex, telemetryCeilings and
--           clampTelemetry, the closure take included.
-- Rarity    app/sigil/rarity.ts: scoreParts, pourScore, rarityScore and classify.
-- Sigil     app/sigil/sigil.ts: hashSeed on 32-bit words written as natural numbers below 2 ^ 32,
--           mulberry32 with its state passed from draw to draw, generateSigil and sigilDigest.
--           Math.cos and Math.sin are parameters; what is relied on is that at a finite number they
--           are at most one in magnitude.
-- Tiers     app/ceremony/tiers.ts: TIERS, tierAt, the formatters and reachableRarity.
-- Record    app/pour/record.ts: PourRecord, MintRequest, ServerConfig and the formatters.
-- Api       app/pour/api.ts: ApiError, apiFetch, assertPourRecord and the four calls. A request is a
--           value, and what fetch does with each attempt of it is a function of the environment; a
--           call gives its result, returned or thrown, and the pauses and requests it made. A parsed
--           answer is a Json value.
--
-- Shell     app/App.tsx: the state of App as a record, and what each callback, each timer and each
--           answer does to it as a function of an event; the guard of the seal button is that of
--           app/ceremony/PourScreen.tsx. At most one mint is under way, since the button is shut
--           while the seal is on.
--
-- Rig       app/ceremony/rig.ts: the blobs as slots of binary32 numbers, createRig, resetRig, stepRig,
--           isSettled and telemetryOf. Math.pow is a parameter. The spawn loop has as many turns as
--           the whole part of its accumulator and one more, and each turn takes one off it.
--
-- Screen    app/ceremony/PourScreen.tsx: openStream, closeStream, discard, the frame loop around
--           stepRig, onOrient, onKey and the request of the seal button, as functions of the refs and
--           the props, with the drag, the keys and the click on a tier. A callback of the shell is a
--           write to a prop, and each event is followed by the render that it asks for. Readout is
--           paintReadout. Stage, Vessel, Schedule, Spec, Band, Card and Page are the markup, whose handlers
--           are values of Gesture. The markup takes any number as ceiling of the tiers; in the events a
--           ceiling is a whole number from zero on, as are the tiers.
--
-- Corpus    app/sigil/gencorpus.ts: the seeded generator of the 300 rows of
--           api/sigil/testdata/corpus.json, and the rows.
--
-- Markup    React's elements as a tree of data, with what is read off it: declarations, what a screen
--           reader is given, the layout, and the handlers that can run. A handler is a value that
--           says what it calls. A disabled element gets no events.
-- Design    app/design/tokens.ts, and the frame of app/design/MoltenBackground.tsx, where the step
--           of the library's lerp is a parameter.
-- Certificate
--           app/certificate: Certificate.tsx in parts (Frame, Parts, Sheet), CertificateView.tsx
--           (View) and proof.tsx (Proof). The rarity that a sheet is drawn in comes from the text of
--           its name; a name that every object inherits, which the lookup finds, is not modelled. The
--           seed and the position of a record are whole numbers.
-- Gallery   app/collection/Gallery.tsx: the sum, the empty register and the tiles.
-- App       app/App.tsx: the page around the views, for a state of Shell.
-- Metaball  app/ceremony/metaball.ts: the size of the buffer and the calls of createRenderer
--           and dispose, for any answers of the context.
-- Scripts   scripts: the search of chrome.ts, the measurements and the checks of
--           verify-certificate.ts, and the course of its run and of that of certificate-pdf.ts as a
--           list of effects. What the browser reports, and whether each awaited call succeeds, are
--           arguments.
--
-- Server    api, the ledger server, in Go. Floats is what it uses of Go's math, each operation rounded by
--           itself as on amd64, with ints that float64 holds exactly; Sigil is api/sigil (ClampTelemetry,
--           HashSeed, RarityScore, Classify); Pour is Mint of api/pour/pour.go, a time being its
--           milliseconds since 1970; Store is the store in memory of api/pour/store.go, each operation
--           one step under its lock; Handlers is handleMint, handleGet and handleList of
--           api/httpapi/server.go. Alike, Words, Halves, Rounds, Seeds, Scored and Preview hold the
--           server against Telemetry, Sigil and Rarity; Ledger, Register, Once and Owners are about the
--           ledger under any requests.
--
-- Sample rows of api/sigil/testdata/corpus.json are evaluated in the Tests modules and come out with
-- the recorded digits.
--
-- Not modelled: of the server in api, the SQLite store, whose operations are SQL, and the sessions, the
-- rate limit, the middleware, the static files and the start, whose outcomes come into the handlers as
-- values; shader text, style sheets and the build; what a browser does with the markup; console output
-- and screenshots; the reading of the window's width, which comes in as a Boolean.
pub mod Prelude
pub mod Number
pub mod Text
pub mod Telemetry
pub mod Sigil
pub mod Rarity
pub mod Tiers
pub mod Record
pub mod Api
pub mod Shell
pub mod Rig
pub mod Screen
pub mod Corpus
pub mod Markup
pub mod Design
pub mod Certificate
pub mod Gallery
pub mod Scripts
pub mod App
pub mod Server
pub mod Metaball
