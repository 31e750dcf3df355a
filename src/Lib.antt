-- ===== src/Lib.antt =====
-- Sumurai is a personal-finance application: a React front end in TypeScript, and a server in Rust
-- that it talks to over HTTP. This library models the core of the front end.
--
-- The parts, and how they work together:
--   * A transaction has a category from its bank and perhaps one of the user. The category helpers
--     bring the spellings of all providers to one taxonomy, and say which categories are transfers.
--   * The amount helpers turn the signs of the providers into one net spending per transaction.
--   * The budget calculator sums that spending over the transactions of a category and a range of
--     dates, carries over what earlier months left, puts the budgets of subcategories together, and
--     computes the statistics of a month.
--   * Transactions come from the backend through the transformer, which settles what category each
--     one shows; the dashboard predicts the upcoming charges from them.
--   * The account filter keeps the accounts and which of them are selected; the session manager ends
--     a session whose token expires.
--   * The hook of the budgets keeps the list of budgets and the transactions of the shown month, on top
--     of the calculator and the optimistic helpers; the chart of cash flows, the donut and the net
--     worth chart are computed from transactions and from responses of the server.
--   * The connections to banks show the accounts that the normalizer has brought into one shape; the
--     flow of Plaid adds, syncs and disconnects them. The form of a new user has rules of its own.
--   * The optimistic helpers show a change of a list before the server has answered.
--   * All data comes through `ApiClient`, which retries failed requests and renews the token of the
--     session with `AuthService`, on top of `FetchHttpClient`.
--
-- The files:
--   * Prelude and below: numbers, integers, lists, options and text, with the operations of
--     JavaScript that the program calls.
--   * Types: frontend/src/types/api.ts (`Transaction`, `Budget`).
--   * Categories, Categories/Taxonomy: frontend/src/utils/categories.ts, under its function names in
--     snake case; Categories/Letters has the theorems on letter case.
--   * Amounts: frontend/src/utils/transactionAmounts.ts; Amounts/Spending has its theorems.
--   * Dates: the dates and their texts, as `Date` and the templates of the program write and read
--     them; Dates/Order and Dates/Parsing have the theorems. Dates/Calendar: `addDays`,
--     `addMonthsClamped` and `daysBetween` of frontend/src/domain/DashboardCalculator.ts, on the
--     number of a day (Dates/Calendar/Serial).
--   * Transformer: frontend/src/domain/TransactionTransformer.ts, theorems in Transformer/Categories.
--   * Charges: `predictUpcomingCharges` of frontend/src/domain/DashboardCalculator.ts, theorem in
--     Charges/Upcoming.
--   * Accounts: frontend/src/hooks/useAccountFilter.tsx and the types of
--     context/AccountFilterContext.tsx. The state of the provider is a record, each callback a
--     function on it, and `select_all` the button of frontend/src/components/HeaderAccountFilter.tsx; theorems in Accounts/Grouping and Accounts/Selection.
--   * Transactions: frontend/src/features/transactions/hooks/useTransactions.ts: Transactions/Duplicates
--     (pending copies), Globs (`matchGlob`), Pages, and Edits (the loaded list and each callback on it,
--     as a function of the answers of the server); theorems in Duplicates/Hidden, Globs/Matching,
--     Pages/Cover, Edits/Reload and Edits/Failures.
--   * Sankey: `groupMinorSubcategories` and the sums of `computeSankeyData` of
--     frontend/src/domain/SankeyCalculator.ts, theorem in Sankey/Balance. Sankey/Colors:
--     `getCategoryColor`. Sankey/Diagram: the nodes, the links and the statistics, theorem in
--     Sankey/Diagram/Links.
--   * Donut: `categoriesToDonut` of frontend/src/features/analytics/adapters/chartData.ts, theorem in
--     Donut/Sums.
--   * NetWorth: `calculateNetYAxisDomain` and `calculateNetDotIndices` of
--     frontend/src/domain/DashboardCalculator.ts, theorems in NetWorth/Chart. NetWorth/Series: the
--     loads of frontend/src/features/analytics/hooks/useNetWorthSeries.ts, as steps before and after an
--     answer, theorems in NetWorth/Series/Loads.
--   * BudgetList: frontend/src/features/budgets/hooks/useBudgets.ts. The state of the hook is a record,
--     each callback a function of the list of its render, of the answer and of what other code does
--     meanwhile; BudgetList/Overlap has the steps of calls that overlap, BudgetList/SameRender two adds
--     of one render. BudgetList/Months: the shown month and its range, theorems in BudgetList/Months/Range.
--   * Connections: frontend/src/hooks/usePlaidConnections.tsx, theorems in Connections/Ownership and
--     Connections/Updates; Connections/Normalizer: frontend/src/domain/AccountNormalizer.ts.
--   * PlaidLink: frontend/src/features/plaid/hooks/usePlaidLinkFlow.ts, theorems in PlaidLink/Progress.
--   * Registration: frontend/src/hooks/usePasswordValidation.ts and useRegistrationValidation.ts,
--     theorem in Registration/Acceptance.
--   * Session: frontend/src/SessionManager.tsx. The storage, the dialog and its countdown are a record;
--     a logout is its start and its end (`handleLogout` of frontend/src/App.tsx, which awaits
--     `AuthService.logout`). Session/Safety has the step relation and its theorems.
--   * DateRanges: frontend/src/utils/dateRanges.ts.
--   * Budgets, Budgets/Rollover, Budgets/Composite, Budgets/Stats: `calculateSpent`,
--     `computeRolloverBudget`, `computeCompositeMajorBudget` and `computeStats` of
--     frontend/src/domain/BudgetCalculator.ts. Their theorems: Budgets/Spent (lists and ranges),
--     Budgets/Rollover/Carry, Balance and Range, Budgets/Composite/Totals, Budgets/Stats/Summary.
--   * Http: frontend/src/services/boundaries/errors.ts and FetchHttpClient.ts, theorems in
--     Http/Responses.
--   * Client: frontend/src/services/ApiClient.ts, and the stored token of authService.ts. A call is a
--     function of the state (stored token, world of the HTTP client, number of requests sent);
--     theorems in Client/Retry, Client/Reauthentication and Client/Errors.
--   * Auth: `login`, `register`, `logout`, `validateSession` and `completeOnboarding` of
--     frontend/src/services/authService.ts, on top of Client; theorems in Auth/Calls. Auth/Refresh: the
--     promise that calls of `refreshToken` share, as steps before and after an answer; theorems in
--     Auth/Refresh/Flights.
--   * Optimistic: frontend/src/utils/optimistic.ts, each helper as a function of the answer of the
--     server and of what other code does to the list during the wait; theorems in
--     Optimistic/Rollback.
--   * Filters: frontend/src/domain/TransactionFilter.ts and `toDateOnlyKey` of
--     frontend/src/utils/dateOnly.ts; theorems in Filters/Order.
--   * Samples holds the data of the tests; each Tests file has runs and examples of its part, and
--     each Evaluation file lists what such a run unfolds.
--
-- How the code is read:
--   * Money is a whole number of cents, of either sign; the program has floating-point numbers.
--   * Text is a list of UTF-16 code units. Letter case is that of ASCII.
--   * A function that may throw on an invalid date returns an option, `none` for the exception.
--   * A month of a selection is 0 to 11 and a month of a date text 1 to 12, as in the source.
--   * `new Date(text)` belongs to the standard library. It is modelled on texts YYYY-MM-DD of days that
--     exist, the form in which the backend sends dates; every other text counts as one that throws,
--     though browsers read some of them. The year and month of a creation time, and the day of a text
--     of another form, depend on the time zone of the browser: they are parameters.
--   * A median of amounts or of days is kept doubled, and a test on a quotient is multiplied out. A
--     transaction of a day that does not exist is left out of the prediction of charges.
--   * Whether a local midnight is still the day before in UTC is an argument of the range of a month.
--   * A percentage of the cash flows is in tenths, the axis of the net worth in hundredths of a cent.
--     A value of the net worth is a number, one that is not finite, or missing: a missing one is left
--     out of the axis and counts as 0 for the dots. The order of `localeCompare` is a parameter.
--   * A regular expression of a rule is read as ECMAScript does, where `.` is no end of a line.
--   * `Number(text)` of a balance and the reading of a payload of a token, by `atob` and `JSON.parse`,
--     are parameters.
--   * The HTTP client under `ApiClient` is a parameter, any function on a world of any type. An
--     endpoint and the text of a token are kept, a body is an unknown type, and delays take no time.
--
-- Fuel and bounds: a number is written on 21 rounds, since JavaScript writes an exponent from 10 ^ 21
-- on. A call of the client is on fuel, one round for each attempt of a request; three retries make
-- four rounds enough for every call that does not renew its token, and a run that needs more is
-- `none`, which is told apart from every result. The loop that looks for the next date of a charge
-- has one round for each day from its first date up to today, since every round moves on by a day at
-- least.
--
-- Not modelled: the views and components, which are markup; the services that only name a path; the
-- hash of the token and the spans of the telemetry; requests of the client that interleave, other than
-- the refresh that they share; the percentages of budgets, quotients that are not rounded; `syncAll`,
-- which runs the syncs of all connections at once; the flow of Teller; the Rust server and the Amazon
-- script, which are programs of their own.
pub mod Prelude
pub mod Types
pub mod Categories
pub mod Amounts
pub mod Dates
pub mod DateRanges
pub mod Samples
pub mod Budgets
pub mod Filters
pub mod Transformer
pub mod Accounts
pub mod Charges
pub mod Session
pub mod Http
pub mod Client
pub mod Optimistic
pub mod Transactions
pub mod Sankey
pub mod BudgetList
pub mod Auth
pub mod Donut
pub mod NetWorth
pub mod Connections
pub mod Registration
pub mod PlaidLink
