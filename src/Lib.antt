-- ===== src/Lib.antt =====
-- Sentinel is a monitor of web sites: an API (sentinel-api, NestJS over PostgreSQL) that keeps users
-- and their monitors, a worker in Go that makes the checks, and a browser client (frontend, React).
-- This library models the TypeScript of the API and of the client. The parts and their files:
--
--   * Base: numbers, texts, lists, results and JSON as JavaScript has them. `Number` holds the
--     integers, the infinities and NaN; `Result` a value or an exception; `Platform` what the code
--     takes from its platform (`new URL`, `toLowerCase`, `Number`, `Date.parse`).
--   * Target: sentinel-api/src/monitors/validators/is-valid-target.validator.ts, `validate` over
--     the code points of a host name.
--   * Db: the tables of sentinel-api/prisma/schema.prisma and the Prisma client as an interface
--     with laws; Db.Memory is an instance over lists, which shows that the laws can hold.
--   * Monitors: sentinel-api/src/monitors/monitors.service.ts and its DTOs. A method is a function
--     from the database to its answer and the database after it. Create and Limit are about
--     `createMonitor`, Update, Delete and Reads about the others; Calls are sequences of calls that
--     change the tables, with the changes that each may make, and Consistent, Isolation and Served
--     are about them.
--   * PublicStatus: sentinel-api/src/status/public-status.service.ts. Published is about the query,
--     read as a function of the tables; Cache about the service as a state, where each part of
--     `getPublicStatus` between two awaits is a step.
--   * Users: sentinel-api/src/users/users.service.ts. Auth: auth.service.ts, the guard, the
--     strategy and the check of the secret key under sentinel-api/src/auth; it calls Users.
--   * Seed: sentinel-api/src/status/status-seed.ts, over the same client and with Target's check.
--     Demo: sentinel-api/src/demo/demo-seed.ts, with the same client and check.
--   * Settings: cors-options.ts and production-env.ts of sentinel-api/src/common/config; it calls
--     Auth's check of the secret key.
--   * Throttle: sentinel-api/src/common/guards/app-throttler.guard.ts and the throttlers of
--     sentinel-api/src/app.module.ts.
--   * StatusView: frontend/src/features/status/status.ts.
--   * Session: frontend/src/app/api/token.ts, frontend/src/app/auth/jwt.ts and
--     frontend/src/app/auth/AuthProvider.tsx. Events change what the provider shows; the client's
--     answer to a 401 is one of them. Refined compares the token store with one optional token.
--   * Client: frontend/src/app/api/client.ts and frontend/src/lib/api/errors.ts, over Session's store.
--     A request is split into its headers, what it does to the store, and its outcome.
--   * History: frontend/src/features/monitors/history/useMonitorHistory.ts with the limits of
--     frontend/src/app/api/endpoints.ts. A hook is a state with its render, effect and callbacks.
--     History.Summary and Percentile: frontend/src/features/monitors/history/summary.ts.
--   * Chart: frontend/src/features/monitors/history/chart-geometry.ts: the points in their order, the
--     two axes, and the loop that cuts the points into segments. Its numbers are exact quotients:
--     what doubles round, and that they underflow or overflow, is not represented.
--   * Pages: what the pages of the client do besides markup: DeleteButton.tsx, CreateMonitorForm.tsx and
--     MonitorsPage.tsx in frontend/src/features/monitors, LoginPage.tsx in
--     frontend/src/features/login, RegisterPage.tsx in frontend/src/features/register. A page is a state,
--     and clicks, answers and renders are events on it. CreateForm and RegisterForm are the schemas
--     of the forms, beside the decorators of the DTOs that the API checks; Messages holds helpers of
--     these pages, of StatusPage.tsx and of MonitorHistoryPage.tsx.
--   * Freshness: frontend/src/lib/datetime.ts and
--     frontend/src/features/monitors/useMonitorFreshness.ts.
--
-- How the code is read. A `where` object of Prisma is the test that it denotes, and a call that the
-- database refuses is not represented; nor is ON DELETE CASCADE, since `deleteMonitor` deletes the
-- results and alerts before the monitor. An optional field of a body is there or `undefined`, never
-- null. The length that class-validator counts is a parameter. Times are natural numbers of milliseconds and are inputs.
-- Identifiers, frequencies and limits are natural numbers; a fraction is counted in a unit that
-- makes it whole. An asynchronous method that has one await at which others may run is split there
-- (PublicStatus, Monitors.Limit); the others are read as if no other call ran between their awaits.
-- All recursion is structural; `show`, the decimal digits of a number, runs on fuel above the number,
-- and a number has no more digits than that; the loop of the vertical axis runs on two turns more
-- than its end has steps, which Chart.Ticks shows to be enough for exact numbers, and the search for a power of ten
-- on a fuel of the number itself. argon2, the signing of tokens, Passport, React and
-- react-query are parameters or inputs.
--
-- Not modelled: health and the controllers of the API, which only pass calls on; the markup of the client,
-- the texts that call `Intl`, the tables of the history page, the lists, and the endpoints but
-- for those with limits; what react-hook-form and react-query keep of their own; the worker and the
-- scripts, which are not TypeScript.
mod Base
pub mod Target
pub mod Db
pub mod Monitors
pub mod PublicStatus
pub mod Users
pub mod Auth
pub mod StatusView
pub mod Session
pub mod Client
pub mod History
pub mod Freshness
pub mod Chart
pub mod Pages
pub mod Seed
pub mod Demo
pub mod Settings
pub mod Throttle
